-- ===== src/StatusPage/Published.antt =====
-- Backend/src/controllers/statusPage.controller.js: the page that a creation publishes, and the visit of
-- its address.
use devops_hackathon.Prelude.{
  ℕ, ◌≡◌, ◌≢◌, refl, ap, sym, subst, ◌∙◌, Bool, true, false, none, some, List, [], ◌∷◌, ◌++◌,
  if◌then◌else◌, arith, inl, inr, Bool-cases, Option-cases,
}
use devops_hackathon.Prelude.Texts.{Text, text_eq, text_eq-path, text_refl}
use devops_hackathon.Http.{returned, thrown, Outcome-cases, api_error, plain, returned_injective}
use devops_hackathon.Monitor.{Monitor}
use devops_hackathon.Uptime.{Windows}
use devops_hackathon.StatusPage.Slug.{slugify}
use devops_hackathon.StatusPage.Slug.Shape.{KeepsSlugs, slugify_slug, without_last_dash}
use devops_hackathon.StatusPage.{Page, Body, find_first, with_slug, insert, validates}
use devops_hackathon.StatusPage.Manage.{Outside, Db, new_page, create_status_page, created}
use devops_hackathon.StatusPage.Public.{get_public_status_page, is_visible, shown_page}
use devops_hackathon.StatusPage.Requests.{new_page-IsAddress}
use devops_hackathon.StatusPage.Addresses.{created_pages}
use devops_hackathon.StatusPage.Visits.{get_public_status_page-answer}

insert-returned :
    (p r : Page) (pages : List Page)
    → (created p.slug (insert p pages)).0 ≡ returned r
    → (p ≡ r) × (with_slug p.slug pages ≡ none) × ((insert p pages).1 ≡ pages ++ (p ∷ []))
unfolding insert
insert-returned p r pages h = elim (Bool-cases (validates p)) [
  | inl e ↦ elim (Option-cases (with_slug p.slug pages)) [
    | inl n ↦ (returned_injective p r (rw (insert, e, n) at h), n, rw (insert, e, n) refl)
    | inr (q, n) ↦ let k = rw (insert, e, n) at h in ground arith
  ]
  | inr e ↦ let k = rw (insert, e) at h in ground arith
]

-- What a creation that succeeds has done.
pub create_status_page-returned :
    (o : Outside) (owner : ℕ) (body : Body) (checked : Db) (pages : List Page) (new_id now : ℕ)
    (p : Page)
    → (create_status_page o owner body checked pages new_id now).0 ≡ returned p
    → (new_page o owner body checked new_id now ≡ returned p)
      × (with_slug p.slug pages ≡ none)
      × ((create_status_page o owner body checked pages new_id now).1 ≡ pages ++ (p ∷ []))
unfolding create_status_page
create_status_page-returned o owner body checked pages new_id now p h =
    elim (Outcome-cases (new_page o owner body checked new_id now)) [
      | inl (e, n) ↦ let k = rw (create_status_page, n) at h in ground arith
      | inr (r, n) ↦
          let (same, fresh, after) = insert-returned r p pages (rw (create_status_page, n) at h) in
          let named : new_page o owner body checked new_id now ≡ returned p = rw (← same) n in
          (
            named,
            subst (λ p. with_slug p.slug pages ≡ none) same fresh,
            rw (create_status_page, n, created_pages r.slug (insert r pages), after)
                (ap (λ p. pages ++ (p ∷ [])) same),
          )
    ]

find_first-append :
    (s : Text) (ps : List Page) (p : Page) (b : Bool)
    → with_slug s ps ≡ none
    → is_visible s p ≡ b
    → find_first (is_visible s) (ps ++ (p ∷ [])) ≡ (if b then some p else none)
find_first-append s [] p b h v = rw v refl
find_first-append s (q ∷ ps) p b h v = ground (arith, find_first-append s ps p b)

-- Unicode tables that leave a text of `a-z`, `0-9` and `-` as it is. A public page that has just been
-- created, at a slug that does not end in a dash, is what the visitor of its slug is shown.
pub create_status_page-visited :
    (o : Outside)
    → KeepsSlugs o.unicode
    → (owner : ℕ) (body : Body) (checked : Db) (pages : List Page) (new_id now : ℕ) (p : Page)
    → (create_status_page o owner body checked pages new_id now).0 ≡ returned p
    → p.is_public ≡ true
    → without_last_dash p.slug ≡ p.slug
    → (ms : List Monitor) (windows : ℕ → Windows) (later : ℕ)
    → get_public_status_page o.unicode
        (create_status_page o owner body checked pages new_id now).1
        ms
        windows
        later
        p.slug
      ≡ returned (shown_page windows later ms p)
create_status_page-visited o keeps owner body checked pages new_id now p h public kept ms windows
      later =
    let (n, fresh, after) = create_status_page-returned o owner body checked pages new_id now p h in
    let address = new_page-IsAddress o owner body checked new_id now p n in
    let same = slugify_slug o.unicode keeps p.slug address.0 address.1 ∙ kept in
    let found : find_first (is_visible p.slug) (pages ++ (p ∷ [])) ≡ some p =
      find_first-append p.slug pages p true fresh (ground (arith, text_refl p.slug)) in
    rw after (
      get_public_status_page-answer o.unicode (pages ++ (p ∷ [])) ms windows later p.slug (some p)
        (subst (λ s. find_first (is_visible s) (pages ++ (p ∷ [])) ≡ (some p)) (sym same) found))

-- The same page at a slug that ends in a dash, where no page has the slug without it: the visitor of
-- the page's own slug is told that there is no such page.
pub create_status_page-unreachable :
    (o : Outside)
    → KeepsSlugs o.unicode
    → (owner : ℕ) (body : Body) (checked : Db) (pages : List Page) (new_id now : ℕ) (p : Page)
    → (create_status_page o owner body checked pages new_id now).0 ≡ returned p
    → without_last_dash p.slug ≢ p.slug
    → with_slug (without_last_dash p.slug) pages ≡ none
    → (ms : List Monitor) (windows : ℕ → Windows) (later : ℕ)
    → get_public_status_page o.unicode
        (create_status_page o owner body checked pages new_id now).1
        ms
        windows
        later
        p.slug
      ≡ thrown (api_error 404 (plain "Status page not found"))
create_status_page-unreachable o keeps owner body checked pages new_id now p h dash free ms windows
      later =
    let (n, fresh, after) = create_status_page-returned o owner body checked pages new_id now p h in
    let address = new_page-IsAddress o owner body checked new_id now p n in
    let short = without_last_dash p.slug in
    let same : slugify o.unicode p.slug ≡ short =
      slugify_slug o.unicode keeps p.slug address.0 address.1 in
    let other : text_eq p.slug short ≡ false = elim (Bool-cases (text_eq p.slug short)) [
      | inl e ↦ elim (dash (sym (text_eq-path p.slug short e))) [ ]
      | inr e ↦ e
    ] in
    let found : find_first (is_visible short) (pages ++ (p ∷ [])) ≡ none =
      find_first-append short pages p false free (ground (arith, other)) in
    rw after (
      get_public_status_page-answer o.unicode (pages ++ (p ∷ [])) ms windows later p.slug none
        (subst (λ s. find_first (is_visible s) (pages ++ (p ∷ [])) ≡ none) (sym same) found))

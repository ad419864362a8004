-- ===== src/StatusPage/Addresses.antt =====
-- Backend/src/controllers/statusPage.controller.js: the addresses of the pages, over requests that run
-- side by side.
use devops_hackathon.Prelude.{
  ◌≡◌, refl, sym, subst, Bool, true, false, Option, none, some, List, [], ◌∷◌, ◌≤◌, arith, length,
  All, All-append, inl, inr, Bool-cases, Option-cases,
}
use devops_hackathon.Prelude.Texts.{Text, is_empty}
use devops_hackathon.Http.{returned}
use devops_hackathon.Store.{Reply, ok, err, duplicate_key, failure}
use devops_hackathon.StatusPage.Slug.{Unicode, slugify, is_reserved_slug}
use devops_hackathon.StatusPage.Slug.Shape.{spaced, slugify-shape}
use devops_hackathon.StatusPage.{
  ObjectIds, Page, find_first, with_slug, resolve_slug, accepted, is_excluded, insert, validates,
}
use devops_hackathon.StatusPage.Manage.{
  Patch, update_by_id, replace_first, remove_first, apply_patch, created, updated, write_change,
  validates_patch,
}
use devops_hackathon.StatusPage.Distinct.{Distinct, append-Distinct, replace_first-Distinct}

-- A slug that a page may have.
abbrev pub IsAddress : Text → Type 0
IsAddress s =
    (spaced true s ≡ true) × (length s ≤ 60) × (is_empty s ≡ false) × (is_reserved_slug s ≡ false)

accepted-returned :
    (o : ObjectIds) (pages : List Page) (exclude : Option Text) (slug s : Text) (b r : Bool)
    → accepted o pages exclude slug b r ≡ returned s
    → (s ≡ slug) × (b ≡ false) × (r ≡ false)
accepted-returned o pages exclude slug s true r h = ground arith
accepted-returned o pages exclude slug s false true h = ground arith
accepted-returned o pages exclude slug s false false h =
    elim (Option-cases (with_slug slug pages)) [
      | inl e ↦ ground (arith, e, h)
      | inr (p, e) ↦ elim (Bool-cases (is_excluded o exclude p)) [
        | inl x ↦ ground (arith, e, x, h)
        | inr x ↦ ground (arith, e, x, h)
      ]
    ]

pub resolve_slug-returned :
    (u : Unicode) (o : ObjectIds) (pages : List Page) (requested : Text) (exclude : Option Text)
    (s : Text)
    → resolve_slug u o pages requested exclude ≡ returned s
    → (s ≡ slugify u requested) × IsAddress s
unfolding resolve_slug
resolve_slug-returned u o pages requested exclude s h =
    let slug = slugify u requested in
    let (same, e, r) =
      accepted-returned o pages exclude slug s (is_empty slug) (is_reserved_slug slug) h in
    let shape = slugify-shape u requested in
    (same, subst IsAddress (sym same) (shape.0, shape.1, e, r))

abbrev pub IsSafe : List Page → Type 0
IsSafe pages = Distinct pages × All (λ p. IsAddress p.slug) pages

pub insert-IsSafe :
    (p : Page) (pages : List Page) → IsAddress p.slug → IsSafe pages → IsSafe (insert p pages).1
unfolding insert
insert-IsSafe p pages a safe = elim (Bool-cases (validates p)) [
  | inl e ↦ elim (Option-cases (with_slug p.slug pages)) [
    | inl n ↦
        rw (e, n)
          (
            append-Distinct p pages n safe.0,
            All-append (λ p. IsAddress p.slug) pages (p ∷ []) safe.1 (a, tt),
          )
    | inr (q, n) ↦ rw (e, n) safe
  ]
  | inr e ↦ rw e safe
]

pub All-find_first :
    {A : Type 0} (P : A → Type 0) (p : A → Bool) (xs : List A) (x : A)
    → All P xs
    → find_first p xs ≡ some x
    → P x
All-find_first P p [] x a h = ground arith
All-find_first P p (y ∷ ys) x a h = elim (Bool-cases (p y)) [
  | inl e ↦ subst P (ground (arith, e, h)) a.0
  | inr e ↦ All-find_first P p ys x a.1 (ground (arith, e, h))
]

module _ (here : Page → Bool) (P : Page → Type 0) where
  pub All-remove_first : (ps : List Page) → All P ps → All P (remove_first here ps)
  All-remove_first [] a = tt
  All-remove_first (q ∷ ps) a = elim (Bool-cases (here q)) [
    | inl e ↦ rw e a.1
    | inr e ↦ rw e (a.0, All-remove_first ps a.1)
  ]

  All-replace_first : (p : Page) (ps : List Page) → P p → All P ps → All P (replace_first here p ps)
  All-replace_first p [] h a = tt
  All-replace_first p (q ∷ ps) h a = elim (Bool-cases (here q)) [
    | inl e ↦ rw e (h, a.1)
    | inr e ↦ rw e (a.0, All-replace_first p ps h a.1)
  ]

-- The slug that an update sets, if any, is an address.
abbrev pub IsAddressed : Option Text → Type 0
IsAddressed none = Unit
IsAddressed (some s) = IsAddress s

patched-IsAddress :
    (q : Patch) (p : Page) (o : Option Text)
    → q.slug ≡ o
    → IsAddressed o
    → IsAddress p.slug
    → IsAddress (apply_patch q p).slug
patched-IsAddress q p none e n a = rw e a
patched-IsAddress q p (some s) e n a = rw e n

write_change-IsSafe :
    (here : Page → Bool) (c : Patch) (p : Page) (pages : List Page)
    → IsAddress p.slug
    → IsSafe pages
    → IsSafe (write_change here c p pages).1
write_change-IsSafe here c p pages a safe = elim (Bool-cases (validates_patch c)) [
  | inl e ↦ elim (Option-cases (with_slug p.slug (remove_first here pages))) [
    | inl n ↦
        rw (write_change, e, n)
          (
            replace_first-Distinct here p pages n safe.0,
            All-replace_first here (λ p. IsAddress p.slug) p pages a safe.1,
          )
    | inr (q, n) ↦ rw (write_change, e, n) safe
  ]
  | inr e ↦ rw (write_change, e) safe
]

pub update_by_id-IsSafe :
    (here : Page → Bool) (q : Patch) (pages : List Page)
    → IsAddressed q.slug
    → IsSafe pages
    → IsSafe (update_by_id here q pages).1
unfolding update_by_id
update_by_id-IsSafe here q pages n safe = elim (Option-cases (find_first here pages)) [
  | inl f ↦ rw (update_by_id, f) safe
  | inr (p, f) ↦
      rw (update_by_id, f)
        (write_change-IsSafe here q (apply_patch q p) pages
          (patched-IsAddress q p q.slug refl n
            (All-find_first (λ p. IsAddress p.slug) here pages p safe.1 f))
          safe)
]

pub created_pages : (s : Text) (x : Reply Page × List Page) → (created s x).1 ≡ x.1
created_pages s (ok p, ps) = refl
created_pages s (err duplicate_key, ps) = refl
created_pages s (err (failure m), ps) = refl

pub updated_pages : (x : Reply (Option Page) × List Page) → (updated x).1 ≡ x.1
updated_pages (ok none, ps) = refl
updated_pages (ok (some p), ps) = refl
updated_pages (err duplicate_key, ps) = refl
updated_pages (err (failure m), ps) = refl

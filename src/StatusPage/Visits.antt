-- ===== src/StatusPage/Visits.antt =====
-- Backend/src/controllers/statusPage.controller.js: what an anonymous visitor can see.
use devops_hackathon.Prelude.{
  ℕ, ◌≡◌, refl, ap, ◌∙◌, Option, none, some, List, [], ◌∷◌, map, arith, inl, inr, Bool-cases,
  Option-cases, ◌==◌,
}
use devops_hackathon.Prelude.Texts.{Text, filter}
use devops_hackathon.Http.{returned}
use devops_hackathon.Monitor.{Monitor}
use devops_hackathon.Uptime.{Windows}
use devops_hackathon.StatusPage.Slug.{Unicode, slugify}
use devops_hackathon.StatusPage.{Page, find_first}
use devops_hackathon.StatusPage.Public.{
  get_public_status_page, is_visible, answer, shown_page, page_of, populate, service_of,
}

visible_filter :
    (slug : Text) (ps : List Page)
    → find_first (is_visible slug) ps ≡ find_first (is_visible slug) (filter (λ p. p.is_public) ps)
visible_filter slug [] = refl
visible_filter slug (p ∷ ps) = ground (arith, visible_filter slug ps)

-- A visit answers as it would if the pages that are not public did not exist, whatever slug is asked
-- for.
pub get_public_status_page-filter :
    (u : Unicode) (pages : List Page) (ms : List Monitor) (windows : ℕ → Windows) (now : ℕ)
    (requested : Text)
    → get_public_status_page u pages ms windows now requested
      ≡ get_public_status_page u (filter (λ p. p.is_public) pages) ms windows now requested
unfolding get_public_status_page
get_public_status_page-filter u pages ms windows now requested =
    ap (answer (shown_page windows now ms)) (visible_filter (slugify u requested) pages)

-- Two monitors that agree on what a visitor may see.
abbrev pub IsSeenAs : Monitor → Monitor → Type 0
IsSeenAs m n =
    (m.id ≡ n.id)
    × (m.title ≡ n.title)
    × (m.status ≡ n.status)
    × (m.active ≡ n.active)
    × (m.last_checked ≡ n.last_checked)

service_of-IsSeenAs :
    (windows : ℕ → Windows) (m n : Monitor)
    → IsSeenAs m n
    → service_of windows m ≡ service_of windows n
unfolding service_of
service_of-IsSeenAs windows m n (i, t, s, a, l) = simp (i, t, s, a, l) refl

abbrev changed : (Monitor → Monitor) → Option Monitor → Option Monitor
changed f none = none
changed f (some m) = some (f m)

module _ (f : Monitor → Monitor) (seen : (m : Monitor) → IsSeenAs (f m) m) where
  find_first-map :
      (ms : List Monitor) (id : ℕ)
      → find_first (λ m. m.id == id) (map f ms) ≡ changed f (find_first (λ m. m.id == id) ms)
  find_first-map [] id = refl
  find_first-map (m ∷ ms) id = elim (Bool-cases (m.id == id)) [
    | inl e ↦ let same = ap (λ i. i == id) (seen m).0 ∙ e in simp (same, e) refl
    | inr e ↦ let same = ap (λ i. i == id) (seen m).0 ∙ e in simp (same, e) (find_first-map ms id)
  ]

  services_seen :
      (windows : ℕ → Windows) (ms : List Monitor) (ids : List ℕ)
      → map (service_of windows) (populate (map f ms) ids)
        ≡ map (service_of windows) (populate ms ids)
  services_seen windows ms [] = refl
  services_seen windows ms (id ∷ ids) = elim (Option-cases (find_first (λ m. m.id == id) ms)) [
    | inl e ↦ simp (find_first-map ms id, e) (services_seen windows ms ids)
    | inr (m, e) ↦
        simp (find_first-map ms id, e, service_of-IsSeenAs windows (f m) m (seen m))
          (ap (λ s. service_of windows m ∷ s) (services_seen windows ms ids))
  ]

-- Whatever else of the monitors changes, such as the address, the owner, the credentials, the
-- interval or the state of the breaker, a visit shows the same page, as long as the ids, titles, states,
-- activity and times of the last checks are the same.
pub get_public_status_page-IsSeenAs :
    (f : Monitor → Monitor)
    → ((m : Monitor) → IsSeenAs (f m) m)
    → (u : Unicode) (pages : List Page) (ms : List Monitor) (windows : ℕ → Windows) (now : ℕ)
      (requested : Text)
    → get_public_status_page u pages (map f ms) windows now requested
      ≡ get_public_status_page u pages ms windows now requested
unfolding get_public_status_page
get_public_status_page-IsSeenAs f seen u pages ms windows now requested =
    elim (Option-cases (find_first (is_visible (slugify u requested)) pages)) [
      | inl e ↦ simp e refl
      | inr (p, e) ↦
          simp e (ap (λ s. returned (page_of p now s)) (services_seen f seen windows ms p.monitors))
    ]

pub get_public_status_page-answer :
    (u : Unicode) (pages : List Page) (ms : List Monitor) (windows : ℕ → Windows) (now : ℕ)
    (requested : Text) (r : Option Page)
    → find_first (is_visible (slugify u requested)) pages ≡ r
    → get_public_status_page u pages ms windows now requested ≡ answer (shown_page windows now ms) r
unfolding get_public_status_page
get_public_status_page-answer u pages ms windows now requested r h =
    ap (answer (shown_page windows now ms)) h

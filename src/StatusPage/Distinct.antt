-- ===== src/StatusPage/Distinct.antt =====
-- Backend/src/controllers/statusPage.controller.js: pages without a common slug.
use devops_hackathon.Prelude.{
  ◌≡◌, refl, Bool, false, none, List, [], ◌∷◌, ◌++◌, arith, inl, inr, Bool-cases,
}
use devops_hackathon.Prelude.Texts.{Text, text_eq, text_eq_comm}
use devops_hackathon.StatusPage.{Page, with_slug}
use devops_hackathon.StatusPage.Manage.{replace_first, remove_first}

-- No two pages have the same slug.
abbrev pub Distinct : List Page → Type 0
Distinct [] = Unit
Distinct (p ∷ ps) = (with_slug p.slug ps ≡ none) × Distinct ps

fresh_append :
    (s : Text) (p : Page) (ps : List Page)
    → with_slug s ps ≡ none
    → text_eq p.slug s ≡ false
    → with_slug s (ps ++ (p ∷ [])) ≡ none
fresh_append s p [] h n = ground arith
fresh_append s p (q ∷ ps) h n = ground (arith, fresh_append s p ps)

pub append-Distinct :
    (p : Page) (ps : List Page)
    → with_slug p.slug ps ≡ none
    → Distinct ps
    → Distinct (ps ++ (p ∷ []))
append-Distinct p [] h d = (refl, tt)
append-Distinct p (q ∷ ps) h d = (
  fresh_append q.slug p ps d.0 (ground (arith, text_eq_comm q.slug p.slug)),
  append-Distinct p ps (ground arith) d.1,
)

module _ (here : Page → Bool) where
  fresh_remove :
      (s : Text) (ps : List Page)
      → with_slug s ps ≡ none
      → with_slug s (remove_first here ps) ≡ none
  fresh_remove s [] h = h
  fresh_remove s (q ∷ ps) h = ground (arith, fresh_remove s ps)

  pub remove_first-Distinct : (ps : List Page) → Distinct ps → Distinct (remove_first here ps)
  remove_first-Distinct [] d = tt
  remove_first-Distinct (q ∷ ps) d = elim (Bool-cases (here q)) [
    | inl e ↦ rw e d.1
    | inr e ↦ rw e (fresh_remove q.slug ps d.0, remove_first-Distinct ps d.1)
  ]

  fresh_replace :
      (s : Text) (p : Page) (ps : List Page)
      → with_slug s ps ≡ none
      → text_eq p.slug s ≡ false
      → with_slug s (replace_first here p ps) ≡ none
  fresh_replace s p [] h n = h
  fresh_replace s p (q ∷ ps) h n = ground (arith, fresh_replace s p ps)

  pub replace_first-Distinct :
      (p : Page) (ps : List Page)
      → with_slug p.slug (remove_first here ps) ≡ none
      → Distinct ps
      → Distinct (replace_first here p ps)
  replace_first-Distinct p [] h d = tt
  replace_first-Distinct p (q ∷ ps) h d = elim (Bool-cases (here q)) [
    | inl e ↦ rw e (rw e at h, d.1)
    | inr e ↦ rw e (
      fresh_replace q.slug p ps d.0 (ground (arith, text_eq_comm q.slug p.slug)),
      replace_first-Distinct p ps (ground arith) d.1,
    )
  ]

-- ===== src/StatusPage/Directory.antt =====
-- Backend/src/controllers/statusPage.controller.js: the collection of pages as a directory of addresses.
use devops_hackathon.Prelude.{
  ◌≡◌, refl, ap, subst, ◌∙◌, Bool, true, false, All, Option, none, some, List, [], ◌∷◌, ◌++◌,
  if◌then◌else◌, arith, inl, inr, Bool-cases,
}
use devops_hackathon.Prelude.Texts.{Text, text_eq, text_eq-path, text_refl, text_eq_comm}
use devops_hackathon.StatusPage.{Page, find_first, with_slug}
use devops_hackathon.StatusPage.Manage.{remove_first, replace_first}
use devops_hackathon.StatusPage.Distinct.{Distinct}

-- What each address leads to.
abbrev pub Directory : Type 0
Directory = Text → Option Page

abbrev pub directory_of : List Page → Directory
directory_of pages slug = with_slug slug pages

abbrev pub entered : Page → Directory → Directory
entered p d slug = if text_eq p.slug slug then some p else d slug

abbrev pub struck : Page → Directory → Directory
struck p d slug = if text_eq p.slug slug then none else d slug

-- Texts equal to one text are equal.
text_eq_same : (s t u : Text) → text_eq s u ≡ true → text_eq t u ≡ true → text_eq s t ≡ true
text_eq_same s t u h k = rw (text_eq-path s u h, text_eq-path t u k) (text_refl u)

pub directory-append :
    (p : Page) (ps : List Page) (slug : Text)
    → with_slug p.slug ps ≡ none
    → directory_of (ps ++ (p ∷ [])) slug ≡ entered p (directory_of ps) slug
directory-append p [] slug h = refl
directory-append p (q ∷ ps) slug h =
    ground (arith, directory-append p ps slug, text_eq_same q.slug p.slug slug)

with_slug-same :
    (p : Page) (slug : Text) (ps : List Page)
    → text_eq p.slug slug ≡ true
    → with_slug p.slug ps ≡ none
    → with_slug slug ps ≡ none
with_slug-same p slug ps h n = subst (λ s. with_slug s ps ≡ none) (text_eq-path p.slug slug h) n

with_slug-find :
    (here : Page → Bool) (p : Page) (slug : Text) (ps : List Page)
    → find_first here ps ≡ some p
    → with_slug slug ps ≡ none
    → text_eq p.slug slug ≡ false
with_slug-find here p slug [] f n = ground arith
with_slug-find here p slug (q ∷ ps) f n = elim (Bool-cases (here q)) [
  | inl e ↦
      let same : q ≡ p = ground (arith, e, f) in
      subst (λ p. text_eq p.slug slug ≡ false) same (ground arith)
  | inr e ↦ with_slug-find here p slug ps (ground (arith, e, f)) (ground arith)
]

pub find_first-true :
    (here : Page → Bool) (ps : List Page) (p : Page) → find_first here ps ≡ some p → here p ≡ true
find_first-true here [] p f = ground arith
find_first-true here (q ∷ ps) p f = elim (Bool-cases (here q)) [
  | inl e ↦ subst (λ p. here p ≡ true) (ground (arith, e, f)) e
  | inr e ↦ find_first-true here ps p (ground (arith, e, f))
]

pub find_first-none :
    (here : Page → Bool) (ps : List Page) → find_first here ps ≡ none → All (λ q. here q ≡ false) ps
find_first-none here [] f = tt
find_first-none here (q ∷ ps) f = elim (Bool-cases (here q)) [
  | inl e ↦ absurd (ground (arith, e, f))
  | inr e ↦ (e, find_first-none here ps (ground (arith, e, f)))
]

-- A page that is found is what its address leads to.
pub directory-there :
    (here : Page → Bool) (p : Page) (ps : List Page)
    → find_first here ps ≡ some p
    → Distinct ps
    → directory_of ps p.slug ≡ some p
directory-there here p [] f d = ground arith
directory-there here p (q ∷ ps) f d = elim (Bool-cases (here q)) [
  | inl e ↦
      let same : q ≡ p = ground (arith, e, f) in
      subst (λ p. directory_of (q ∷ ps) p.slug ≡ some p) same (rw (text_refl q.slug) refl)
  | inr e ↦
      let there = with_slug-find here p q.slug ps (ground (arith, e, f)) d.0 in
      let other : text_eq q.slug p.slug ≡ false = text_eq_comm q.slug p.slug ∙ there in
      rw other (directory-there here p ps (ground (arith, e, f)) d.1)
]

pub directory-remove :
    (here : Page → Bool) (p : Page) (ps : List Page) (slug : Text)
    → find_first here ps ≡ some p
    → Distinct ps
    → directory_of (remove_first here ps) slug ≡ struck p (directory_of ps) slug
directory-remove here p [] slug f d = ground arith
directory-remove here p (q ∷ ps) slug f d = elim (Bool-cases (here q)) [
  | inl e ↦
      let same : q ≡ p = ground (arith, e, f) in
      rw e (
        subst (λ p. with_slug slug ps ≡ struck p (directory_of (q ∷ ps)) slug) same
          (elim (Bool-cases (text_eq q.slug slug)) [
            | inl k ↦ rw k (with_slug-same q slug ps k d.0)
            | inr k ↦ rw k refl
          ]))
  | inr e ↦
      let rest = directory-remove here p ps slug (ground (arith, e, f)) d.1 in
      let there = with_slug-find here p q.slug ps (ground (arith, e, f)) d.0 in
      rw e (elim (Bool-cases (text_eq q.slug slug)) [
        | inl k ↦ elim (Bool-cases (text_eq p.slug slug)) [
          | inl m ↦ let clash = text_eq_same p.slug q.slug slug m k in ground (arith, clash, there)
          | inr m ↦ rw (k, m) refl
        ]
        | inr k ↦ rw k rest
      ])
]

directory-replaced :
    (here : Page → Bool) (p : Page) (ps : List Page) (q : Page) (slug : Text)
    → find_first here ps ≡ some q
    → with_slug p.slug (remove_first here ps) ≡ none
    → directory_of (replace_first here p ps) slug
      ≡ entered p (directory_of (remove_first here ps)) slug
directory-replaced here p [] q slug f n = ground arith
directory-replaced here p (x ∷ ps) q slug f n = elim (Bool-cases (here x)) [
  | inl e ↦ rw e refl
  | inr e ↦
      let fresh = rw e at n in
      let rest =
        directory-replaced here p ps q slug (ground (arith, e, f)) (ground (arith, fresh)) in
      rw e (ground (arith, rest, fresh, text_eq_same x.slug p.slug slug))
]

pub directory-replace :
    (here : Page → Bool) (p : Page) (ps : List Page) (q : Page) (slug : Text)
    → find_first here ps ≡ some q
    → with_slug p.slug (remove_first here ps) ≡ none
    → Distinct ps
    → directory_of (replace_first here p ps) slug ≡ entered p (struck q (directory_of ps)) slug
directory-replace here p ps q slug f n d =
    directory-replaced here p ps q slug f n
    ∙ ap (λ r. if text_eq p.slug slug then some p else r) (directory-remove here q ps slug f d)

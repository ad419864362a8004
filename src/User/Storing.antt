-- ===== src/User/Storing.antt =====
-- Backend/src/services/user.service.js: a saved document among the others.
use devops_hackathon.Prelude.{
  ℕ, ◌≡◌, refl, ap, subst, Bool, true, false, none, some, List, [], ◌∷◌, ◌==◌, arith, All, inl, inr,
  Bool-cases, ◌⊎◌,
}
use devops_hackathon.User.{User, find_first, put}

pub find_first-true :
    {A : Type 0} (p : A → Bool) (xs : List A) (x : A) → find_first p xs ≡ some x → p x ≡ true
find_first-true p [] x h = ground arith
find_first-true p (y ∷ ys) x h = elim (Bool-cases (p y)) [
  | inl e ↦ subst (λ z. p z ≡ true) (ground (arith, e, h)) e
  | inr e ↦ find_first-true p ys x (ground (arith, e, h))
]

pub All-find_first :
    {A : Type 0} (P : A → Type 0) (p : A → Bool) (xs : List A) (x : A)
    → All P xs
    → find_first p xs ≡ some x
    → P x
All-find_first P p [] x a h = ground arith
All-find_first P p (y ∷ ys) x a h = elim (Bool-cases (p y)) [
  | inl e ↦ subst P (ground (arith, e, h)) a.0
  | inr e ↦ All-find_first P p ys x a.1 (ground (arith, e, h))
]

pub All-put : (P : User → Type 0) (u : User) (vs : List User) → P u → All P vs → All P (put u vs)
All-put P u [] h a = tt
All-put P u (v ∷ vs) h a = elim (Bool-cases (v.id == u.id)) [
  | inl e ↦ rw (put, e) (h, All-put P u vs h a.1)
  | inr e ↦ rw (put, e) (a.0, All-put P u vs h a.1)
]

-- What is found among the documents is found in its new version.
pub find_first-put :
    (p : User → Bool) (u w : User) (vs : List User)
    → find_first p vs ≡ some u
    → p w ≡ true
    → w.id ≡ u.id
    → find_first p (put w vs) ≡ some w
find_first-put p u w [] h t i = ground arith
find_first-put p u w (v ∷ vs) h t i = elim (Bool-cases (v.id == w.id)) [
  | inl e ↦ rw (put, e, t) refl
  | inr e ↦ elim (Bool-cases (p v)) [
    | inl q ↦
        let same : v ≡ u = ground (arith, q, h) in
        let same_id : v.id ≡ u.id = ap (λ x. x.id) same in ground (arith, e, i, same_id)
    | inr q ↦ rw (put, e, q) (find_first-put p u w vs (rw q at h) t i)
  ]
]

-- A document that none but the saved one matches.
abbrev pub Only : (User → Bool) → (id : ℕ) → List User → Type 0
Only p id vs = All (λ v. (v.id ≡ id) ⊎ (p v ≡ false)) vs

pub find_first-Only :
    (p q : User → Bool) (u w : User) (vs : List User)
    → find_first q vs ≡ some u
    → Only p w.id vs
    → p w ≡ true
    → w.id ≡ u.id
    → find_first p (put w vs) ≡ some w
find_first-Only p q u w [] h a t i = ground arith
find_first-Only p q u w (v ∷ vs) h a t i = elim (Bool-cases (v.id == w.id)) [
  | inl e ↦ rw (put, e, t) refl
  | inr e ↦ elim (Bool-cases (q v)) [
    | inl m ↦
        let same : v ≡ u = ground (arith, m, h) in
        let same_id : v.id ≡ u.id = ap (λ x. x.id) same in ground (arith, e, i, same_id)
    | inr m ↦
        let other : p v ≡ false = ground (arith, e, a.0) in
        rw (put, e, other) (find_first-Only p q u w vs (rw m at h) a.1 t i)
  ]
]

pub find_first_gone :
    (p : User → Bool) (w : User) (vs : List User)
    → Only p w.id vs
    → p w ≡ false
    → find_first p (put w vs) ≡ none
find_first_gone p w [] a f = refl
find_first_gone p w (v ∷ vs) a f = elim (Bool-cases (v.id == w.id)) [
  | inl e ↦ rw (put, e, f) (find_first_gone p w vs a.1 f)
  | inr e ↦
      let other : p v ≡ false = ground (arith, e, a.0) in
      rw (put, e, other) (find_first_gone p w vs a.1 f)
]

pub Only-put :
    (p : User → Bool) (w : User) (vs : List User) → Only p w.id vs → Only p w.id (put w vs)
Only-put p w vs a = All-put (λ v. (v.id ≡ w.id) ⊎ (p v ≡ false)) w vs (inl refl) a

pub Only-weaken :
    (p q : User → Bool) (id : ℕ) (vs : List User)
    → ((v : User) → p v ≡ false → q v ≡ false)
    → Only p id vs
    → Only q id vs
Only-weaken p q id [] f a = tt
Only-weaken p q id (v ∷ vs) f a =
    ((elim a.0 [ inl e ↦ inl e | inr e ↦ inr (f v e) ]), Only-weaken p q id vs f a.1)

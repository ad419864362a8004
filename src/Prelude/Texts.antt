-- ===== src/Prelude/Texts.antt =====
-- Texts as lists of code units, with the tests and the cuts that the source makes of them.
use devops_hackathon.Prelude.{
  ℕ, zero, suc, ◌+◌, ◌≤◌, ◌≡◌, refl, Bool, true, false, ◌&&◌, ◌||◌, List, [], ◌∷◌, ◌==◌, leb,
  if◌then◌else◌, length, arith,
}
use Prim.Native.Char.{code}
use Prim.Native.String.{String}

abbrev pub Text : Type 0
Text = List ℕ

-- The code units of an ASCII literal.
abbrev pub codes : String → Text
codes String.[] = []
codes (String.◌∷◌ c s) = code c ∷ codes s

abbrev pub text_eq : Text → Text → Bool
text_eq [] [] = true
text_eq [] (d ∷ ds) = false
text_eq (c ∷ cs) [] = false
text_eq (c ∷ cs) (d ∷ ds) = (c == d) && text_eq cs ds

abbrev pub elem : Text → List Text → Bool
elem t [] = false
elem t (u ∷ us) = text_eq u t || elem t us

module _ {A : Type 0} (p : A → Bool) where
  abbrev pub filter : List A → List A
  filter [] = []
  filter (c ∷ cs) = if p c then c ∷ filter cs else filter cs

  abbrev pub any : List A → Bool
  any [] = false
  any (c ∷ cs) = p c || any cs

  abbrev pub drop_start : List A → List A
  drop_start [] = []
  drop_start (c ∷ cs) = if p c then drop_start cs else (c ∷ cs)

  abbrev pub drop_end : List A → List A
  drop_end [] = []
  drop_end (c ∷ cs) = elim (drop_end cs) [ [] ↦ if p c then [] else (c ∷ []) | d ∷ ds ↦ c ∷ d ∷ ds ]

-- `slice(0, n)`
abbrev pub take {ℓ} : {A : Type ℓ} → ℕ → List A → List A
take zero cs = []
take (suc n) [] = []
take (suc n) (c ∷ cs) = c ∷ take n cs

-- The white space of `trim`.
abbrev pub is_space : ℕ → Bool
is_space c =
    (leb 9 c && leb c 13)
    || (c == 32)
    || (c == 160)
    || (c == 5760)
    || (leb 8192 c && leb c 8202)
    || (c == 8232)
    || (c == 8233)
    || (c == 8239)
    || (c == 8287)
    || (c == 12288)
    || (c == 65279)

abbrev pub trim : Text → Text
trim t = drop_end is_space (drop_start is_space t)

abbrev pub is_empty : Text → Bool
is_empty [] = true
is_empty (c ∷ cs) = false

pub text_refl : (t : Text) → text_eq t t ≡ true
text_refl [] = refl
text_refl (c ∷ cs) = ground (arith, text_refl cs)

pub text_eq-path : (t u : Text) → text_eq t u ≡ true → t ≡ u
text_eq-path [] [] h = refl
text_eq-path [] (d ∷ ds) h = ground arith
text_eq-path (c ∷ cs) [] h = ground arith
text_eq-path (c ∷ cs) (d ∷ ds) h = ground (arith, text_eq-path cs ds)

pub length-take {ℓ} : {A : Type ℓ} (n : ℕ) (xs : List A) → length (take n xs) ≤ n
length-take zero xs = omega arith
length-take (suc n) [] = omega arith
length-take (suc n) (x ∷ xs) = omega (arith, length-take n xs)

pub take_short {ℓ} : {A : Type ℓ} (n : ℕ) (xs : List A) → length xs ≤ n → take n xs ≡ xs
take_short zero [] h = refl
take_short zero (x ∷ xs) h = ground arith
take_short (suc n) [] h = refl
take_short (suc n) (x ∷ xs) h = rw (take_short n xs (omega arith)) refl

pub length-drop_end : {A : Type 0} (p : A → Bool) (xs : List A) → length (drop_end p xs) ≤ length xs
length-drop_end p [] = omega arith
length-drop_end p (x ∷ xs) = ground (arith, length-drop_end p xs)

pub text_eq_comm : (t u : Text) → text_eq t u ≡ text_eq u t
text_eq_comm [] [] = refl
text_eq_comm [] (d ∷ ds) = refl
text_eq_comm (c ∷ cs) [] = refl
text_eq_comm (c ∷ cs) (d ∷ ds) = ground (arith, text_eq_comm cs ds)

-- The `length` of a text, in UTF-16 units.
abbrev pub utf16_length : String → ℕ
utf16_length String.[] = 0
utf16_length (String.◌∷◌ c s) = (if leb 65536 (code c) then 2 else 1) + utf16_length s

-- ===== src/Dao/Isolation.antt =====
-- Backend/src/dao/scopedDao.js: which documents a query of `#filter` matches.
use devops_hackathon.Prelude.{
  ◌≡◌, refl, inl, inr, Bool, true, false, [], ◌∷◌, ◌&&◌, All, arith, Bool-cases,
}
use devops_hackathon.Dao.{Fields, Query, plain, both, has_key, put, spread, collides, confine}
use Prim.Native.String.{String}
use text.Mathlib.Text.{◌==◌ as str_eq}

-- MongoDB's matching, given when a document's field meets a condition: an object matches where every
-- entry of it does, and `$and` where both parts do.
module _ {C D : Type 0} (holds : D → String → C → Bool) where
  abbrev pub matches_fields : D → Fields C → Bool
  matches_fields d [] = true
  matches_fields d ((k, v) ∷ f) = holds d k v && matches_fields d f

  abbrev pub matches : D → Query C → Bool
  matches d (plain f) = matches_fields d f
  matches d (both f g) = matches_fields d f && matches_fields d g

  -- The keys of an object differ.
  abbrev pub Object : Fields C → Type 0
  Object [] = Unit
  Object ((k, v) ∷ f) = All (λ e. str_eq k e.0 ≡ false) f × Object f

  put-matches_fields :
      (d : D) (k : String) (v : C) (f : Fields C)
      → has_key k f ≡ false
      → matches_fields d (put k v f) ≡ (holds d k v && matches_fields d f)
  put-matches_fields d k v [] h = refl
  put-matches_fields d k v ((j, w) ∷ f) h = elim (Bool-cases (str_eq j k)) [
    | inl e ↦ ground arith
    | inr e ↦ rw e (let k' = put-matches_fields d k v f in ground arith)
  ]

  put-has_key :
      (j k : String) (v : C) (f : Fields C)
      → str_eq k j ≡ false
      → has_key j f ≡ false
      → has_key j (put k v f) ≡ false
  put-has_key j k v [] n h = ground arith
  put-has_key j k v ((i, w) ∷ f) n h = elim (Bool-cases (str_eq i k)) [
    | inl e ↦ rw e h
    | inr e ↦ rw e (let r = put-has_key j k v f n in ground arith)
  ]

  put-collides :
      (k : String) (v : C) (f scope : Fields C)
      → All (λ e. str_eq k e.0 ≡ false) scope
      → collides f scope ≡ false
      → collides (put k v f) scope ≡ false
  unfolding collides
  put-collides k v f [] n h = refl
  put-collides k v f ((j, w) ∷ scope) (n, ns) h =
      let a = put-has_key j k v f n in let b = put-collides k v f scope ns in ground arith

  spread-matches_fields :
      (d : D) (f scope : Fields C)
      → Object scope
      → collides f scope ≡ false
      → matches_fields d (spread f scope) ≡ (matches_fields d f && matches_fields d scope)
  unfolding spread collides
  spread-matches_fields d f [] o h = ground arith
  spread-matches_fields d f ((k, v) ∷ scope) (n, o) h =
      let a = put-matches_fields d k v f (ground arith) in
      let b =
        spread-matches_fields d (put k v f) scope o (put-collides k v f scope n (ground arith)) in
      ground arith

  -- The confined query is an intersection: it matches exactly the documents that match both the
  -- caller's filter and the scope, whether or not the two share a key.
  pub confine-matches :
      (d : D) (f scope : Fields C)
      → Object scope
      → matches d (confine f scope) ≡ (matches_fields d f && matches_fields d scope)
  unfolding confine
  confine-matches d f scope o = elim (Bool-cases (collides f scope)) [
    | inl e ↦ rw e refl
    | inr e ↦ rw e (spread-matches_fields d f scope o e)
  ]

-- ===== src/Dao/Operations.antt =====
-- Backend/src/dao/scopedDao.js: what each operation sends to the model.
use devops_hackathon.Prelude.{
  ◌≡◌, refl, sym, subst, ◌∙◌, inl, inr, Bool, true, false, Option, none, some, [], ◌∷◌, All, arith,
  Bool-cases, Option-cases, if◌then◌else◌,
}
use devops_hackathon.Dao.{
  RawId, DaoError, Result, returned, raised, Fields, Query, ScopedDao, Mongoose, Operation, find,
  find_one, find_by_id, create, update_by_id, delete_by_id, count, distinct, aggregate, ModelCall,
  model_find, model_find_one, model_create, model_update, model_delete, model_count, model_distinct,
  model_aggregate, put, spread, confine, assert_owner, scope_for, execute, call_of, with_id,
  refuses, id_of,
}
use devops_hackathon.Dao.Isolation.{matches, matches_fields, Object, confine-matches}
use Prim.Native.String.{String}
use text.Mathlib.Text.{◌==◌ as str_eq}
use text.Mathlib.TextEquality.{eq_iff}

text_refl : (s : String) → str_eq s s ≡ true
text_refl s = ground (arith, eq_iff s s)

same_text : (a b : String) → str_eq a b ≡ true → a ≡ b
same_text a b h = ground (arith, eq_iff a b)

text_sym : (a b : String) → str_eq a b ≡ false → str_eq b a ≡ false
text_sym a b h = ground (arith, eq_iff a b, eq_iff b a)

module _ {C : Type 0} where
  -- The value of a key.
  abbrev pub value_of : String → Fields C → Option C
  value_of k [] = none
  value_of k ((j, v) ∷ f) = if str_eq j k then some v else value_of k f

  put-value_of : (k : String) (v : C) (f : Fields C) → value_of k (put k v f) ≡ some v
  put-value_of k v [] = rw (text_refl k) refl
  put-value_of k v ((j, w) ∷ f) = elim (Bool-cases (str_eq j k)) [
    | inl e ↦ simp e refl
    | inr e ↦ simp e (put-value_of k v f)
  ]

  put-value_of-other :
      (j k : String) (v : C) (f : Fields C)
      → str_eq k j ≡ false
      → value_of j (put k v f) ≡ value_of j f
  put-value_of-other j k v [] n = rw n refl
  put-value_of-other j k v ((i, w) ∷ f) n = elim (Bool-cases (str_eq i k)) [
    | inl e ↦ rw e (let q = subst (λ x. str_eq x j ≡ false) (sym (same_text i k e)) n in rw q refl)
    | inr e ↦ rw e (let r = put-value_of-other j k v f n in ground arith)
  ]

  spread-value_of-other :
      (k : String) (f scope : Fields C)
      → All (λ e. str_eq k e.0 ≡ false) scope
      → value_of k (spread f scope) ≡ value_of k f
  unfolding spread
  spread-value_of-other k f [] n = refl
  spread-value_of-other k f ((j, w) ∷ scope) (n, ns) =
      spread-value_of-other k (put j w f) scope ns ∙ put-value_of-other k j w f (text_sym k j n)

  module _ {D : Type 0} (holds : D → String → C → Bool) where
    -- The object has the scope's values.
    abbrev pub Stamped : Fields C → Fields C → Type 0
    Stamped doc [] = Unit
    Stamped doc ((k, v) ∷ scope) = (value_of k doc ≡ some v) × Stamped doc scope

    spread-Stamped : (doc scope : Fields C) → Object holds scope → Stamped (spread doc scope) scope
    unfolding spread
    spread-Stamped doc [] o = tt
    spread-Stamped doc ((k, v) ∷ scope) (n, o) = (
      spread-value_of-other k (put k v doc) scope n ∙ put-value_of k v doc,
      spread-Stamped (put k v doc) scope o,
    )

    -- Every document that the query matches is in the scope.
    abbrev pub Narrow : Fields C → Query C → Type 0
    Narrow scope q = (d : D) → matches holds d q ≡ true → matches_fields holds d scope ≡ true

    -- The call reaches no document outside the scope, and makes none.
    abbrev pub Confined : Fields C → ModelCall C → Type 0
    Confined scope (model_find q) = Narrow scope q
    Confined scope (model_find_one q) = Narrow scope q
    Confined scope (model_create doc) = Stamped doc scope
    Confined scope (model_update q patch) = Narrow scope q
    Confined scope (model_delete q) = Narrow scope q
    Confined scope (model_count q) = Narrow scope q
    Confined scope (model_distinct field q) = Narrow scope q
    Confined scope (model_aggregate match rest) = match ≡ scope

    -- What an operation ends in: an error, `null`, or a confined call.
    abbrev pub Safe : Fields C → Result (Option (ModelCall C)) → Type 0
    Safe scope (raised e) = Unit
    Safe scope (returned none) = Unit
    Safe scope (returned (some call)) = Confined scope call

    confine-Narrow : (f scope : Fields C) → Object holds scope → Narrow scope (confine f scope)
    confine-Narrow f scope o d h = let e = confine-matches holds d f scope o in ground arith

    module _ (m : Mongoose C) where
      with_id-Safe :
          (scope : Fields C) (id : RawId) (call : Fields C → ModelCall C)
          → ((f : Fields C) → Confined scope (call f))
          → Safe scope (with_id m id call)
      with_id-Safe scope id call h = elim (Option-cases (m.object_id id)) [
        | inl e ↦ rw (e, with_id) tt
        | inr (c, e) ↦ rw (e, with_id) (h (("_id", c) ∷ []))
      ]

      call_of-Safe :
          (scope : Fields C) (o : Operation C) → Object holds scope → Safe scope (call_of m scope o)
      call_of-Safe scope (find f) k = confine-Narrow f scope k
      call_of-Safe scope (find_one f) k = confine-Narrow f scope k
      call_of-Safe scope (find_by_id id) k = with_id-Safe scope id _ (λ f. confine-Narrow f scope k)
      call_of-Safe scope (create doc) k = spread-Stamped doc scope k
      call_of-Safe scope (update_by_id id patch) k =
          with_id-Safe scope id (λ f. model_update (confine f scope) patch)
            (λ f. confine-Narrow f scope k)
      call_of-Safe scope (delete_by_id id) k =
          with_id-Safe scope id (λ f. model_delete (confine f scope))
            (λ f. confine-Narrow f scope k)
      call_of-Safe scope (count f) k = confine-Narrow f scope k
      call_of-Safe scope (distinct field f) k = confine-Narrow f scope k
      call_of-Safe scope (aggregate pipeline) k = refl

      -- Tenant isolation, for every operation: where the owner's scope is an object, the operation
      -- ends in an error, in `null`, or in a call that matches no document outside the scope; a
      -- created document carries the scope's values, and an aggregation begins with the scope.
      pub execute-Safe :
          (d : ScopedDao C) (owner : RawId) (o : Operation C) (scope : Fields C)
          → scope_for m d owner ≡ returned scope
          → Object holds scope
          → Safe scope (execute m d owner o)
      unfolding execute
      execute-Safe d owner o scope h k = elim (Bool-cases (refuses m (id_of m o))) [
        | inl e ↦ rw e tt
        | inr e ↦ rw (e, h) (call_of-Safe scope o k)
      ]

      -- No call of the model is made.
      abbrev pub Silent : Result (Option (ModelCall C)) → Type 0
      Silent (raised e) = Unit
      Silent (returned none) = Unit
      Silent (returned (some call)) = ⊥

      -- An owner that is missing, empty or a malformed identifier: no operation reaches the model.
      pub execute-Silent :
          (d : ScopedDao C) (owner : RawId) (o : Operation C) (e : DaoError)
          → assert_owner m owner ≡ some e
          → Silent (execute m d owner o)
      unfolding execute scope_for
      execute-Silent d owner o e h = elim (Bool-cases (refuses m (id_of m o))) [
        | inl r ↦ rw r tt
        | inr r ↦ rw (r, h) tt
      ]

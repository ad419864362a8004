-- ===== src/Tests/Daos.antt =====
-- The data access of two tenants over documents that carry their owner.
use devops_hackathon.Prelude.{ℕ, ◌≡◌, refl, Bool, true, false, some, [], ◌∷◌, ◌==◌, if◌then◌else◌}
use devops_hackathon.Dao.{
  missing, string_value, object_value, other_value, Fields, Mongoose, returned, by_user_id, find,
  create, execute, scope_for, model_find, model_create, both,
}
use devops_hackathon.Dao.Operations.{Safe, execute-Safe}
use Prim.Native.String.{String}
use text.Mathlib.Text.{◌==◌ as str_eq}

abbrev mongoose : Mongoose ℕ
mongoose = record {
  is_valid_object_id = λ v. elim v [
    | missing ↦ false
    | string_value t ↦ str_eq t "a"
    | object_value t ↦ false
    | other_value t ↦ true
  ];
  object_id = λ v. some 1;
}

-- A document is its owner and its id.
abbrev holds : ℕ × ℕ → String → ℕ → Bool
holds (owner, id) k v =
    if str_eq k "userId" then owner == v else if str_eq k "_id" then id == v else false

abbrev mine : Fields ℕ
mine = ("userId", 1) ∷ []

-- A filter that names another owner is not overwritten: both must hold.
hostile_find :
    execute mongoose by_user_id (string_value "a") (find (("userId", 2) ∷ []))
    ≡ returned (some (model_find (both (("userId", 2) ∷ []) mine)))
unfolding execute by_user_id
hostile_find = refl

hostile_create :
    execute mongoose by_user_id (string_value "a") (create (("userId", 2) ∷ ("_id", 7) ∷ []))
    ≡ returned (some (model_create (("userId", 1) ∷ ("_id", 7) ∷ [])))
unfolding execute by_user_id
hostile_create = refl

execute-Safe_example :
    Safe holds mine (execute mongoose by_user_id (string_value "a") (find (("userId", 2) ∷ [])))
unfolding scope_for by_user_id
execute-Safe_example =
    execute-Safe holds mongoose by_user_id (string_value "a") (find (("userId", 2) ∷ [])) mine refl
      (tt, tt)

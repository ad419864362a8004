-- ===== src/Dao.antt =====
-- Backend/src/dao/scopedDao.js and dao/index.js: data access that is confined to one owner. An
-- operation is reduced to the call of the model that it makes; the validity of an id, the cast of one
-- and the scope that a query of its own resolves are the outside's.
pub mod Isolation
pub mod Operations
use devops_hackathon.Prelude.{
  ℕ, Bool, true, false, Option, none, some, List, [], ◌∷◌, ◌++◌, ◌&&◌, ◌||◌, not, if◌then◌else◌,
}
use devops_hackathon.Store.{Reply, ok, err, DbError}
use Prim.Native.String.{String}
use text.Mathlib.Text.{◌==◌ as str_eq}

-- An identifier as a request carries it: nothing, a text, an object, or another value.
pub data RawId : Type 0 where
  missing : RawId
  string_value : String → RawId
  object_value : String → RawId
  other_value : String → RawId

pub data DaoError : Type 0 where
  unscoped_query : String → DaoError
  bad_cast : DaoError
  db_error : DbError → DaoError
  api_error : (status_code : ℕ) (message : String) → DaoError

pub data Result (A : Type 0) : Type 0 where
  returned : A → Result A
  raised : DaoError → Result A

-- An object literal: its keys with their values.
abbrev pub Fields : Type 0 → Type 0
Fields C = List (String × C)

-- A filter: one object, or `{ $and: [p, q] }`.
pub data Query (C : Type 0) : Type 0 where
  plain : Fields C → Query C
  both : Fields C → Fields C → Query C

pub record ScopedDao (C : Type 0) : Type 0 where
  pub owner_field : String
  pub resolve_scope : Option (RawId → Reply (Fields C))

-- Of mongoose: `isValidObjectId`, and a value's ObjectId as a condition, unless the cast throws.
pub record Mongoose (C : Type 0) : Type 0 where
  pub is_valid_object_id : RawId → Bool
  pub object_id : RawId → Option C

abbrev required : DaoError
required = unscoped_query "Refusing to run an unscoped query: ownerId is required"

abbrev invalid : DaoError
invalid = unscoped_query "Refusing to run an unscoped query: ownerId is not a valid identifier"

pub data Operation (C : Type 0) : Type 0 where
  find : Fields C → Operation C
  find_one : Fields C → Operation C
  find_by_id : RawId → Operation C
  create : Fields C → Operation C
  update_by_id : RawId → Fields C → Operation C
  delete_by_id : RawId → Operation C
  count : Fields C → Operation C
  distinct : (field : String) → Fields C → Operation C
  aggregate : (pipeline : List (Fields C)) → Operation C

-- The calls of the model; an aggregation's first stage is a `$match`.
pub data ModelCall (C : Type 0) : Type 0 where
  model_find : Query C → ModelCall C
  model_find_one : Query C → ModelCall C
  model_create : Fields C → ModelCall C
  model_update : Query C → Fields C → ModelCall C
  model_delete : Query C → ModelCall C
  model_count : Query C → ModelCall C
  model_distinct : String → Query C → ModelCall C
  model_aggregate : (match : Fields C) → List (Fields C) → ModelCall C

module _ {C : Type 0} where
  -- `hasOwnProperty`
  abbrev pub has_key : String → Fields C → Bool
  has_key k [] = false
  has_key k ((j, v) ∷ f) = str_eq j k || has_key k f

  abbrev pub put : String → C → Fields C → Fields C
  put k v [] = (k, v) ∷ []
  put k v ((j, w) ∷ f) = if str_eq j k then ((j, v) ∷ f) else ((j, w) ∷ put k v f)

  -- `{ ...f, ...g }`
  unfoldable pub spread : Fields C → Fields C → Fields C
  spread f [] = f
  spread f ((k, v) ∷ g) = spread (put k v f) g

  unfoldable pub collides : Fields C → Fields C → Bool
  collides f [] = false
  collides f ((k, v) ∷ scope) = has_key k f || collides f scope

  -- `#filter`, once the scope is there.
  unfoldable pub confine : Fields C → Fields C → Query C
  unfolding spread collides
  confine f scope = if collides f scope then both f scope else plain (spread f scope)

  module _ (m : Mongoose C) where
    -- `assertOwner`: the error that it throws, if any.
    unfoldable pub assert_owner : RawId → Option DaoError
    assert_owner missing = some required
    assert_owner (string_value t) =
        if str_eq t ""
        then some required
        else if m.is_valid_object_id (string_value t)
        then none
        else some invalid
    assert_owner (object_value t) =
        if m.is_valid_object_id (object_value t) then none else some invalid
    assert_owner (other_value t) = none

    abbrev resolved : Reply (Fields C) → Result (Fields C)
    resolved (ok scope) = returned scope
    resolved (err e) = raised (db_error e)

    abbrev owned : String → Option C → Result (Fields C)
    owned field none = raised bad_cast
    owned field (some id) = returned ((field, id) ∷ [])

    abbrev scope_of : ScopedDao C → Option (RawId → Reply (Fields C)) → RawId → Result (Fields C)
    scope_of d (some resolve) owner = resolved (resolve owner)
    scope_of d none owner = owned d.owner_field (m.object_id owner)

    abbrev asserted : ScopedDao C → RawId → Option DaoError → Result (Fields C)
    asserted d owner (some e) = raised e
    asserted d owner none = scope_of d d.resolve_scope owner

    unfoldable pub scope_for : ScopedDao C → RawId → Result (Fields C)
    unfolding assert_owner
    scope_for d owner = asserted d owner (assert_owner owner)

    -- `{ _id: id }`, with the id as mongoose casts it.
    abbrev by_id : RawId → Option (Fields C)
    by_id id = elim (m.object_id id) [ none ↦ none | some c ↦ some (("_id", c) ∷ []) ]

    -- The call that a scope leads to; `none` is the `null` of an id that is none.
    abbrev with_id : RawId → (Fields C → ModelCall C) → Result (Option (ModelCall C))
    with_id id call = elim (by_id id) [ none ↦ raised bad_cast | some f ↦ returned (some (call f)) ]

    abbrev call_of : Fields C → Operation C → Result (Option (ModelCall C))
    call_of scope (find f) = returned (some (model_find (confine f scope)))
    call_of scope (find_one f) = returned (some (model_find_one (confine f scope)))
    call_of scope (find_by_id id) = with_id id (λ f. model_find_one (confine f scope))
    call_of scope (create doc) = returned (some (model_create (spread doc scope)))
    call_of scope (update_by_id id patch) = with_id id (λ f. model_update (confine f scope) patch)
    call_of scope (delete_by_id id) = with_id id (λ f. model_delete (confine f scope))
    call_of scope (count f) = returned (some (model_count (confine f scope)))
    call_of scope (distinct field f) = returned (some (model_distinct field (confine f scope)))
    call_of scope (aggregate pipeline) = returned (some (model_aggregate scope pipeline))

    abbrev scoped : Operation C → Result (Fields C) → Result (Option (ModelCall C))
    scoped o (raised e) = raised e
    scoped o (returned scope) = call_of scope o

    abbrev id_of : Operation C → Option RawId
    id_of (find_by_id id) = some id
    id_of (update_by_id id patch) = some id
    id_of (delete_by_id id) = some id
    id_of _ = none

    -- `if (!mongoose.isValidObjectId(id)) return null` comes before the scope.
    abbrev refuses : Option RawId → Bool
    refuses none = false
    refuses (some id) = not (m.is_valid_object_id id)

    unfoldable pub execute : ScopedDao C → RawId → Operation C → Result (Option (ModelCall C))
    unfolding scope_for confine spread
    execute d owner o = if refuses (id_of o) then returned none else scoped o (scope_for d owner)

    -- `assertMonitorOwned`, over what the query for the monitor answers.
    abbrev not_found : DaoError
    not_found = api_error 404 "Monitor not found"

    abbrev shown : {D : Type 0} → Reply (Option D) → Result D
    shown (ok (some monitor)) = returned monitor
    shown (ok none) = raised not_found
    shown (err e) = raised (db_error e)

    abbrev looked_up :
        {D : Type 0} → (ModelCall C → Reply (Option D)) → Result (Option (ModelCall C)) → Result D
    looked_up answer (raised e) = raised e
    looked_up answer (returned none) = raised not_found
    looked_up answer (returned (some call)) = shown (answer call)

    unfoldable pub assert_monitor_owned :
        {D : Type 0} → ScopedDao C → (ModelCall C → Reply (Option D)) → RawId → RawId → Result D
    unfolding execute
    assert_monitor_owned d answer owner id =
        if not (m.is_valid_object_id id)
        then raised not_found
        else looked_up answer (execute d owner (find_by_id id))

-- The DAOs of dao/index.js: by the owner's field, or by the owner of the monitor.
unfoldable pub by_user_id : {C : Type 0} → ScopedDao C
by_user_id = record { owner_field = "userId"; resolve_scope = none }

abbrev monitor_in : {C : Type 0} → (List ℕ → C) → Reply (List ℕ) → Reply (Fields C)
monitor_in one_of (ok ids) = ok (("monitorId", one_of ids) ∷ [])
monitor_in one_of (err e) = err e

-- `byMonitorOwnership`, with the query for the owned monitors and the condition `$in`.
unfoldable pub by_monitor_ownership :
    {C : Type 0} → (List ℕ → C) → (RawId → Reply (List ℕ)) → ScopedDao C
by_monitor_ownership one_of owned_monitor_ids = record {
  owner_field = "userId";
  resolve_scope = some (λ owner. monitor_in one_of (owned_monitor_ids owner));
}

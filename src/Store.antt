-- ===== src/Store.antt =====
-- What the code relies on of MongoDB, which is not part of the repository: the replies of a call,
-- and the documented behaviour of one atomic `findOneAndUpdate` with `upsert` on a document whose
-- key a unique index protects. No operation is defined here; the relations are the hypotheses of
-- the theorems that need them.
use devops_hackathon.Prelude.{Bool, true, false, Option, none, some, ◌≡◌}
use Prim.Native.String.{String}

-- A rejected call: the duplicate-key error (code 11000), or another with its message.
pub data DbError : Type 0 where
  duplicate_key : DbError
  failure : String → DbError

pub data Reply {ℓ} (A : Type ℓ) : Type ℓ where
  ok : A → Reply A
  err : DbError → Reply A

-- One upsert: `matches` is the filter beside the key, `set` applies `$set`, `ins` is the document
-- that `$setOnInsert` and `$set` make, `before` and `after` the stored document. The reply carries
-- the document after the update and `updatedExisting`.
pub data Upsert {D : Type 0} (matches : D → Bool) (set : D → D) (ins : D) (before : Option D)
    (reply : Reply (D × Bool)) (after : Option D) : Type 0 where
  updated :
      (d : D)
      → before ≡ some d
      → matches d ≡ true
      → reply ≡ ok (set d, true)
      → after ≡ some (set d)
      → Upsert matches set ins before reply after
  inserted :
      before ≡ none
      → reply ≡ ok (ins, false)
      → after ≡ some ins
      → Upsert matches set ins before reply after
  -- The insertion met the unique index: a document with the key is there.
  conflict :
      (d : D)
      → before ≡ some d
      → reply ≡ err duplicate_key
      → after ≡ before
      → Upsert matches set ins before reply after
  failed :
      (text : String)
      → reply ≡ err (failure text)
      → after ≡ before
      → Upsert matches set ins before reply after
  -- The write was made, and the acknowledgement was lost.
  updated_unacknowledged :
      (d : D) (text : String)
      → before ≡ some d
      → matches d ≡ true
      → reply ≡ err (failure text)
      → after ≡ some (set d)
      → Upsert matches set ins before reply after
  inserted_unacknowledged :
      (text : String)
      → before ≡ none
      → reply ≡ err (failure text)
      → after ≡ some ins
      → Upsert matches set ins before reply after

-- One `findOneAndUpdate` or `deleteOne` without `upsert`: the matching document, changed by
-- `change` (`none` takes it out of the key's reach), or no match. `shown` is what the reply shows
-- of the document.
pub data Modify {D : Type 0} (matches : D → Bool) (change : D → Option D) (shown : D → D)
    (before : Option D) (reply : Reply (Option D)) (after : Option D) : Type 0 where
  changed :
      (d : D)
      → before ≡ some d
      → matches d ≡ true
      → reply ≡ ok (some (shown d))
      → after ≡ change d
      → Modify matches change shown before reply after
  unmatched :
      ((d : D) → before ≡ some d → matches d ≡ false)
      → reply ≡ ok none
      → after ≡ before
      → Modify matches change shown before reply after
  failed :
      (text : String)
      → reply ≡ err (failure text)
      → after ≡ before
      → Modify matches change shown before reply after
  changed_unacknowledged :
      (d : D) (text : String)
      → before ≡ some d
      → matches d ≡ true
      → reply ≡ err (failure text)
      → after ≡ change d
      → Modify matches change shown before reply after

-- ===== src/StatusPage.antt =====
-- Backend/src/controllers/statusPage.controller.js and models/statusPage.model.js: the status pages
-- of a user, and what a visitor sees of one. The collections are lists, and a call of the model
-- succeeds unless the schema or the unique index refuses it. Where a handler checks first and writes
-- later, it takes both states, since other requests run in between.
pub mod Slug
pub mod Manage
pub mod Public
pub mod Stages
pub mod Ownership
pub mod Distinct
pub mod Addresses
pub mod Requests
pub mod Visits
pub mod Published
pub mod Directory
pub mod Refinement
use devops_hackathon.Prelude.{
  ℕ, ◌≡◌, Bool, true, false, Option, none, some, List, [], ◌∷◌, ◌++◌, map, ◌&&◌, ◌||◌, not, ◌==◌,
  leb, ltb, if◌then◌else◌, or_default, first_some, length,
}
use devops_hackathon.Prelude.Texts.{Text, text_eq, elem, filter, any, trim, is_empty, codes}
use devops_hackathon.Store.{Reply, ok, err, DbError, duplicate_key, failure}
use devops_hackathon.Http.{
  Outcome, returned, thrown, ◌>>=◌, Failure, api_error, db_error, require, plain, quoting,
}
use devops_hackathon.Monitor.{Monitor, Status, up, down}
use devops_hackathon.Uptime.{Windows}
use devops_hackathon.StatusPage.Slug.{Unicode, slugify, is_reserved_slug}
use Prim.Native.String.{String}

pub record Page : Type 0 where
  pub id : ℕ
  pub user_id : ℕ
  pub name : Text
  pub slug : Text
  pub description : Text
  pub monitors : List ℕ
  pub is_public : Bool
  pub created_at : ℕ

-- Of mongoose: the validity of an id's text, the id that it is cast to, and `String(id)`.
pub record ObjectIds : Type 0 where
  pub is_valid_object_id : Text → Bool
  pub object_id : Text → ℕ
  pub show : ℕ → Text

-- `monitors` of a body: undefined, no array, or the texts of its entries.
pub data Given : Type 0 where
  absent : Given
  no_array : Given
  listed : List Text → Given

-- A body's texts are what `String` makes of them; `is_public` is none unless it is a Boolean.
pub record Body : Type 0 where
  pub name : Option Text
  pub description : Option Text
  pub monitors : Given
  pub is_public : Option Bool
  pub slug : Option Text

abbrev pub max_pages_per_user : ℕ
max_pages_per_user = 25

abbrev pub max_monitors_per_page : ℕ
max_monitors_per_page = 50

abbrev pub find_first : {A : Type 0} → (A → Bool) → List A → Option A
find_first p [] = none
find_first p (x ∷ xs) = if p x then some x else find_first p xs

-- `[...new Set(ids)]`
abbrev pub unique : List Text → List Text
unique [] = []
unique (t ∷ ts) = t ∷ filter (λ u. not (text_eq t u)) (unique ts)

-- `monitorDao.find(ownerId, { _id: { $in: ids } })`
abbrev pub owned_among : ObjectIds → List Monitor → (owner : ℕ) → List Text → List Monitor
owned_among o ms owner ids =
    filter (λ m. (m.user_id == owner) && any (λ id. o.object_id id == m.id) ids) ms

abbrev not_found : Failure
not_found = api_error 404 (plain "Monitor not found")

abbrev pub unless_foreign : ObjectIds → List Text → List Text → Outcome (Option (List ℕ))
unless_foreign o owned ids = elim (find_first (λ id. not (elem id owned)) ids) [
  | some id ↦ thrown not_found
  | none ↦ returned (some (map o.object_id ids))
]

abbrev pub unless_invalid :
    ObjectIds → List Monitor → (owner : ℕ) → List Text → Outcome (Option (List ℕ))
unless_invalid o ms owner ids = elim (find_first (λ id. not (o.is_valid_object_id id)) ids) [
  | some id ↦ thrown (api_error 400 (quoting "Not a valid monitor id: " id ""))
  | none ↦ unless_foreign o (map (λ m. o.show m.id) (owned_among o ms owner ids)) ids
]

unfoldable pub resolve_owned_monitors :
    ObjectIds → List Monitor → (owner : ℕ) → Given → Outcome (Option (List ℕ))
resolve_owned_monitors o ms owner absent = returned none
resolve_owned_monitors o ms owner no_array =
    thrown (api_error 400 (plain "monitors must be an array of monitor ids"))
resolve_owned_monitors o ms owner (listed ids) =
    if ltb max_monitors_per_page (length ids)
    then thrown (api_error 400 (plain "A status page can show at most 50 monitors"))
    else unless_invalid o ms owner (unique ids)

abbrev pub with_slug : Text → List Page → Option Page
with_slug slug pages = find_first (λ p. text_eq p.slug slug) pages

abbrev pub taken : Text → Failure
taken slug = api_error 409 (quoting "The address /status/" slug " is already taken")

-- `String(clash._id) !== String(excludeId)`
abbrev pub is_excluded : ObjectIds → Option Text → Page → Bool
is_excluded o none p = false
is_excluded o (some id) p = text_eq (o.show p.id) id

abbrev pub unless_clash : ObjectIds → Option Text → Text → Option Page → Outcome Text
unless_clash o exclude slug none = returned slug
unless_clash o exclude slug (some p) =
    if is_excluded o exclude p then returned slug else thrown (taken slug)

abbrev pub accepted :
    ObjectIds → List Page → Option Text → (slug : Text) → (empty reserved : Bool) → Outcome Text
accepted o pages exclude slug true reserved =
    thrown
      (api_error 400 (plain "Name must contain at least one letter or number to build a URL from"))
accepted o pages exclude slug false true =
    thrown (api_error 400 (quoting "\"" slug "\" is reserved — choose another name"))
accepted o pages exclude slug false false = unless_clash o exclude slug (with_slug slug pages)

abbrev vetted : ObjectIds → List Page → Option Text → (slug : Text) → Outcome Text
vetted o pages exclude slug = accepted o pages exclude slug (is_empty slug) (is_reserved_slug slug)

unfoldable pub resolve_slug :
    Unicode → ObjectIds → List Page → (requested : Text) → (exclude : Option Text) → Outcome Text
unfolding slugify is_reserved_slug
resolve_slug u o pages requested exclude = vetted o pages exclude (slugify u requested)

-- The schema's validators, on the fields that have bounds.
unfoldable pub validates : Page → Bool
validates p = not (is_empty p.name) && leb (length p.name) 80 && leb (length p.description) 280

abbrev pub invalid : DbError
invalid = failure "StatusPage validation failed"

-- `Model.create`, with the unique index on the slug.
unfoldable pub insert : Page → List Page → Reply Page × List Page
unfolding validates
insert p pages = if not (validates p) then (err invalid, pages) else elim (with_slug p.slug pages) [
  | some q ↦ (err duplicate_key, pages)
  | none ↦ (ok p, pages ++ (p ∷ []))
]

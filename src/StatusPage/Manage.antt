-- ===== src/StatusPage/Manage.antt =====
-- Backend/src/controllers/statusPage.controller.js: the handlers that create, edit and delete a page.
use devops_hackathon.Prelude.{
  ℕ, Bool, true, false, Option, none, some, List, [], ◌∷◌, ◌&&◌, not, ◌==◌, leb, ltb, if◌then◌else◌,
  or_default, length,
}
use devops_hackathon.Prelude.Texts.{Text, filter, any, trim, is_empty}
use devops_hackathon.Store.{Reply, ok, err, duplicate_key, failure}
use devops_hackathon.Http.{Outcome, returned, thrown, ◌>>=◌, api_error, db_error, require, plain}
use devops_hackathon.Monitor.{Monitor}
use devops_hackathon.StatusPage.Slug.{Unicode}
use devops_hackathon.StatusPage.{
  Page, ObjectIds, Body, max_pages_per_user, find_first, resolve_owned_monitors, resolve_slug,
  with_slug, taken, insert, invalid,
}

-- What a creation or an edit asks of the database before it writes.
pub record Db : Type 0 where
  pub pages : List Page
  pub monitors : List Monitor

pub record Outside : Type 0 where
  pub unicode : Unicode
  pub ids : ObjectIds

abbrev present_text : Option Text → Bool
present_text none = false
present_text (some t) = not (is_empty t)

-- `slug || name`
abbrev pub or_text : Option Text → Text → Text
or_text none fallback = fallback
or_text (some t) fallback = if is_empty t then fallback else t

abbrev description_of : Option Text → Text
description_of none = []
description_of (some t) = trim t

abbrev mine : (owner : ℕ) → List Page → List Page
mine owner pages = filter (λ p. p.user_id == owner) pages

abbrev pub has_name : Body → Bool
has_name body = present_text body.name && present_text (some (trim (or_default body.name [])))

abbrev pub under_limit : (owner : ℕ) → Db → Bool
under_limit owner db = ltb (length (mine owner db.pages)) max_pages_per_user

abbrev pub page_with : (owner : ℕ) → Body → (new_id now : ℕ) → Text → Option (List ℕ) → Page
page_with owner body new_id now slug monitors = record {
  id = new_id;
  user_id = owner;
  name = trim (or_default body.name []);
  slug = slug;
  description = description_of body.description;
  monitors = or_default monitors [];
  is_public = or_default body.is_public true;
  created_at = now;
}

abbrev pub page_at :
    Outside → (owner : ℕ) → Body → Db → (new_id now : ℕ) → (slug : Text) → Outcome Page
page_at o owner body db new_id now slug =
    resolve_owned_monitors o.ids db.monitors owner body.monitors >>= λ monitors.
    returned (page_with owner body new_id now slug monitors)

abbrev pub requested_slug : Body → Text
requested_slug body = or_text body.slug (or_default body.name [])

-- The document of `createStatusPage`, after all of its checks.
unfoldable pub new_page : Outside → (owner : ℕ) → Body → Db → (new_id now : ℕ) → Outcome Page
unfolding resolve_slug resolve_owned_monitors
new_page o owner body db new_id now =
    require (has_name body) (api_error 400 (plain "Name is required")) (
      require (under_limit owner db)
        (api_error 400 (plain "You can create at most 25 status pages"))
        (resolve_slug o.unicode o.ids db.pages (requested_slug body) none
          >>= page_at o owner body db new_id now))

abbrev pub created : Text → Reply Page × List Page → Outcome Page × List Page
created slug (ok p, pages) = (returned p, pages)
created slug (err duplicate_key, pages) = (thrown (taken slug), pages)
created slug (err (failure m), pages) = (thrown (db_error (failure m)), pages)

-- `checked` is the database at the checks, `pages` the collection at the write.
unfoldable pub create_status_page :
    Outside
    → (owner : ℕ) → Body
    → (checked : Db) → (pages : List Page) → (new_id now : ℕ) → Outcome Page × List Page
unfolding new_page insert
create_status_page o owner body checked pages new_id now =
    elim (new_page o owner body checked new_id now) [
      | thrown e ↦ (thrown e, pages)
      | returned p ↦ created p.slug (insert p pages)
    ]

pub record Patch : Type 0 where
  pub name : Option Text
  pub description : Option Text
  pub is_public : Option Bool
  pub slug : Option Text
  pub monitors : Option (List ℕ)

abbrev pub apply_patch : Patch → Page → Page
apply_patch q p = record p {
  name = or_default q.name p.name;
  description = or_default q.description p.description;
  is_public = or_default q.is_public p.is_public;
  slug = or_default q.slug p.slug;
  monitors = or_default q.monitors p.monitors;
}

-- A page by an id's text, within the owner's.
abbrev pub is_page : ObjectIds → (owner : ℕ) → (page_id : Text) → Page → Bool
is_page o owner page_id p =
    o.is_valid_object_id page_id && (p.id == o.object_id page_id) && (p.user_id == owner)

abbrev trimmed : Option Text → Option Text
trimmed none = none
trimmed (some t) = some (trim t)

abbrev pub slug_of_patch :
    Outside → List Page → (page_id : Text) → Option Text → Outcome (Option Text)
slug_of_patch o pages page_id none = returned none
slug_of_patch o pages page_id (some slug) =
    resolve_slug o.unicode o.ids pages slug (some page_id) >>= λ s. returned (some s)

abbrev pub patch_with : Body → Option Text → Option (List ℕ) → Patch
patch_with body slug monitors = record {
  name = trimmed body.name;
  description = trimmed body.description;
  is_public = body.is_public;
  slug = slug;
  monitors = monitors;
}

abbrev pub patch_at : Outside → (owner : ℕ) → Body → Db → (slug : Option Text) → Outcome Patch
patch_at o owner body db slug =
    resolve_owned_monitors o.ids db.monitors owner body.monitors >>= λ monitors.
    returned (patch_with body slug monitors)

abbrev pub name_kept : Body → Bool
name_kept body = elim body.name [ none ↦ true | some t ↦ not (is_empty (trim t)) ]

-- The update of `updateStatusPage`, after all of its checks.
unfoldable pub page_patch : Outside → (owner : ℕ) → (page_id : Text) → Body → Db → Outcome Patch
unfolding resolve_slug resolve_owned_monitors
page_patch o owner page_id body db =
    require (any (is_page o.ids owner page_id) db.pages)
      (api_error 404 (plain "Status page not found"))
      (require (name_kept body) (api_error 400 (plain "Name cannot be empty"))
        (slug_of_patch o db.pages page_id body.slug >>= patch_at o owner body db))

-- The first of the pages that the test picks, changed.
abbrev pub replace_first : (Page → Bool) → Page → List Page → List Page
replace_first here p [] = []
replace_first here p (q ∷ qs) = if here q then p ∷ qs else q ∷ replace_first here p qs

abbrev pub remove_first : (Page → Bool) → List Page → List Page
remove_first here [] = []
remove_first here (q ∷ qs) = if here q then qs else q ∷ remove_first here qs

-- `runValidators` checks the paths that are updated, and no others.
abbrev pub validates_name : Option Text → Bool
validates_name none = true
validates_name (some t) = not (is_empty t) && leb (length t) 80

abbrev pub validates_description : Option Text → Bool
validates_description none = true
validates_description (some t) = leb (length t) 280

unfoldable pub validates_patch : Patch → Bool
validates_patch q = validates_name q.name && validates_description q.description

abbrev pub write_change : (Page → Bool) → Patch → Page → List Page → Reply (Option Page) × List Page
write_change here q changed pages =
    if not (validates_patch q)
    then (err invalid, pages)
    else elim (with_slug changed.slug (remove_first here pages)) [
      | some other ↦ (err duplicate_key, pages)
      | none ↦ (ok (some changed), replace_first here changed pages)
    ]

-- `updateById`: the page, or null, with the validators and the unique index over the other pages.
unfoldable pub update_by_id : (Page → Bool) → Patch → List Page → Reply (Option Page) × List Page
unfolding validates_patch
update_by_id here q pages = elim (find_first here pages) [
  | none ↦ (ok none, pages)
  | some p ↦ write_change here q (apply_patch q p) pages
]

abbrev pub updated : Reply (Option Page) × List Page → Outcome Page × List Page
updated (ok (some p), pages) = (returned p, pages)
updated (ok none, pages) = (thrown (api_error 404 (plain "Status page not found")), pages)
updated (err duplicate_key, pages) =
    (thrown (api_error 409 (plain "That address is already taken")), pages)
updated (err (failure m), pages) = (thrown (db_error (failure m)), pages)

unfoldable pub update_status_page :
    Outside
    → (owner : ℕ) → (page_id : Text) → Body
    → (checked : Db) → (pages : List Page) → Outcome Page × List Page
unfolding page_patch update_by_id
update_status_page o owner page_id body checked pages =
    elim (page_patch o owner page_id body checked) [
      | thrown e ↦ (thrown e, pages)
      | returned q ↦ updated (update_by_id (is_page o.ids owner page_id) q pages)
    ]

unfoldable pub delete_status_page :
    ObjectIds → (owner : ℕ) → (page_id : Text) → List Page → Outcome Page × List Page
delete_status_page o owner page_id pages = elim (find_first (is_page o owner page_id) pages) [
  | none ↦ (thrown (api_error 404 (plain "Status page not found")), pages)
  | some p ↦ (returned p, remove_first (is_page o owner page_id) pages)
]

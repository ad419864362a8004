-- ===== src/StatusPage/Stages.antt =====
-- Backend/src/controllers/statusPage.controller.js: what a creation and an edit have passed once their
-- checks are through.
use devops_hackathon.Prelude.{ℕ, ◌≡◌, sym, true, Option, none, List}
use devops_hackathon.Prelude.Texts.{Text, any}
use devops_hackathon.Http.{
  returned, ◌>>=◌, require, require-returned, bind-returned, returned_injective, api_error, plain,
}
use devops_hackathon.StatusPage.{Page, Body, resolve_slug, resolve_owned_monitors}
use devops_hackathon.StatusPage.Manage.{
  Outside, Db, Patch, new_page, has_name, under_limit, requested_slug, page_at, page_with,
  page_patch, is_page, name_kept, slug_of_patch, patch_at, patch_with,
}

pub new_page-stages :
    (o : Outside) (owner : ℕ) (body : Body) (db : Db) (new_id now : ℕ) (p : Page)
    → new_page o owner body db new_id now ≡ returned p
    → (slug : Text) × (monitors : Option (List ℕ)) × (has_name body ≡ true)
      × (under_limit owner db ≡ true)
      × (resolve_slug o.unicode o.ids db.pages (requested_slug body) none ≡ returned slug)
      × (resolve_owned_monitors o.ids db.monitors owner body.monitors ≡ returned monitors)
      × (p ≡ page_with owner body new_id now slug monitors)
unfolding new_page
new_page-stages o owner body db new_id now p h =
    let slugged =
      resolve_slug o.unicode o.ids db.pages (requested_slug body) none
      >>= page_at o owner body db new_id now in
    let many = api_error 400 (plain "You can create at most 25 status pages") in
    let named =
      require-returned (has_name body) (api_error 400 (plain "Name is required"))
        (require (under_limit owner db) many slugged) p h in
    let limited = require-returned (under_limit owner db) many slugged p named.1 in
    let (slug, e, at) = bind-returned _ (page_at o owner body db new_id now) p limited.1 in
    let (monitors, e2, same) =
      bind-returned (resolve_owned_monitors o.ids db.monitors owner body.monitors)
        (λ ms. returned (page_with owner body new_id now slug ms)) p at in
    (slug, monitors, named.0, limited.0, e, e2, sym (returned_injective _ _ same))

pub page_patch-stages :
    (o : Outside) (owner : ℕ) (page_id : Text) (body : Body) (db : Db) (q : Patch)
    → page_patch o owner page_id body db ≡ returned q
    → (slug : Option Text) × (monitors : Option (List ℕ)) × (any
          (is_page o.ids owner page_id)
          db.pages
        ≡ true)
      × (name_kept body ≡ true)
      × (slug_of_patch o db.pages page_id body.slug ≡ returned slug)
      × (resolve_owned_monitors o.ids db.monitors owner body.monitors ≡ returned monitors)
      × (q ≡ patch_with body slug monitors)
unfolding page_patch
page_patch-stages o owner page_id body db q h =
    let slugged = slug_of_patch o db.pages page_id body.slug >>= patch_at o owner body db in
    let unnamed = api_error 400 (plain "Name cannot be empty") in
    let there =
      require-returned (any (is_page o.ids owner page_id) db.pages)
        (api_error 404 (plain "Status page not found")) (require (name_kept body) unnamed slugged) q
        h in
    let named = require-returned (name_kept body) unnamed slugged q there.1 in
    let (slug, e, at) = bind-returned _ (patch_at o owner body db) q named.1 in
    let (monitors, e2, same) =
      bind-returned (resolve_owned_monitors o.ids db.monitors owner body.monitors)
        (λ ms. returned (patch_with body slug ms)) q at in
    (slug, monitors, there.0, named.0, e, e2, sym (returned_injective _ _ same))

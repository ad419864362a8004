-- ===== src/StatusPage/Requests.antt =====
-- Backend/src/controllers/statusPage.controller.js: the collection of pages under requests that run side
-- by side.
use devops_hackathon.Prelude.{
  ℕ, ◌≡◌, sym, subst, Option, none, some, List, [], inl, inr, Option-cases,
}
use devops_hackathon.Prelude.Texts.{Text}
use devops_hackathon.Http.{returned, Outcome-cases, bind-returned, returned_injective}
use devops_hackathon.StatusPage.{Page, Body, find_first, resolve_slug, insert}
use devops_hackathon.StatusPage.Manage.{
  Outside, Db, Patch, new_page, create_status_page, page_patch, update_status_page, update_by_id,
  delete_status_page, is_page, slug_of_patch, requested_slug,
}
use devops_hackathon.StatusPage.Distinct.{remove_first-Distinct}
use devops_hackathon.StatusPage.Stages.{new_page-stages, page_patch-stages}
use devops_hackathon.StatusPage.Addresses.{
  IsAddress, IsAddressed, IsSafe, insert-IsSafe, update_by_id-IsSafe, created_pages, updated_pages,
  All-remove_first, resolve_slug-returned,
}

pub new_page-IsAddress :
    (o : Outside) (owner : ℕ) (body : Body) (db : Db) (new_id now : ℕ) (p : Page)
    → new_page o owner body db new_id now ≡ returned p
    → IsAddress p.slug
new_page-IsAddress o owner body db new_id now p h =
    let (slug, monitors, _, _, e, _, same) = new_page-stages o owner body db new_id now p h in
    let is_address =
      resolve_slug-returned o.unicode o.ids db.pages (requested_slug body) none slug e in
    subst (λ p. IsAddress p.slug) (sym same) is_address.1

slug_of_patch-IsAddressed :
    (o : Outside) (pages : List Page) (page_id : Text) (given slug : Option Text)
    → slug_of_patch o pages page_id given ≡ returned slug
    → IsAddressed slug
slug_of_patch-IsAddressed o pages page_id none slug h =
    subst IsAddressed (returned_injective none slug h) tt
slug_of_patch-IsAddressed o pages page_id (some t) slug h =
    let (s, e, same) =
      bind-returned (resolve_slug o.unicode o.ids pages t (some page_id)) (λ s. returned (some s))
        slug h in
    subst IsAddressed (returned_injective (some s) slug same)
      (resolve_slug-returned o.unicode o.ids pages t (some page_id) s e).1

page_patch-IsAddressed :
    (o : Outside) (owner : ℕ) (page_id : Text) (body : Body) (db : Db) (q : Patch)
    → page_patch o owner page_id body db ≡ returned q
    → IsAddressed q.slug
page_patch-IsAddressed o owner page_id body db q h =
    let (slug, monitors, _, _, e, _, same) = page_patch-stages o owner page_id body db q h in
    subst (λ q. IsAddressed q.slug) (sym same)
      (slug_of_patch-IsAddressed o db.pages page_id body.slug slug e)

module _ (o : Outside) where
  create_status_page-IsSafe :
      (owner : ℕ) (body : Body) (checked : Db) (pages : List Page) (new_id now : ℕ)
      → IsSafe pages
      → IsSafe (create_status_page o owner body checked pages new_id now).1
  unfolding create_status_page
  create_status_page-IsSafe owner body checked pages new_id now safe =
      elim (Outcome-cases (new_page o owner body checked new_id now)) [
        | inl (e, h) ↦ rw (create_status_page, h) safe
        | inr (p, h) ↦
            rw (create_status_page, h, created_pages p.slug (insert p pages))
              (insert-IsSafe p pages (new_page-IsAddress o owner body checked new_id now p h) safe)
      ]

  update_status_page-IsSafe :
      (owner : ℕ) (page_id : Text) (body : Body) (checked : Db) (pages : List Page)
      → IsSafe pages
      → IsSafe (update_status_page o owner page_id body checked pages).1
  unfolding update_status_page
  update_status_page-IsSafe owner page_id body checked pages safe =
      elim (Outcome-cases (page_patch o owner page_id body checked)) [
        | inl (e, h) ↦ rw (update_status_page, h) safe
        | inr (q, h) ↦
            let here = is_page o.ids owner page_id in
            rw (update_status_page, h, updated_pages (update_by_id here q pages))
              (update_by_id-IsSafe here q pages
                (page_patch-IsAddressed o owner page_id body checked q h) safe)
      ]

  delete_status_page-IsSafe :
      (owner : ℕ) (page_id : Text) (pages : List Page)
      → IsSafe pages
      → IsSafe (delete_status_page o.ids owner page_id pages).1
  unfolding delete_status_page
  delete_status_page-IsSafe owner page_id pages safe =
      elim (Option-cases (find_first (is_page o.ids owner page_id) pages)) [
        | inl h ↦ rw (delete_status_page, h) safe
        | inr (p, h) ↦
            rw (delete_status_page, h)
              (
                remove_first-Distinct (is_page o.ids owner page_id) pages safe.0,
                All-remove_first (is_page o.ids owner page_id) (λ p. IsAddress p.slug) pages safe.1,
              )
      ]

-- The collections that requests lead to, in any order. The checks of a request see any database, such
-- as one that other requests have changed since.
pub data Reachable (o : Outside) : List Page → Type 0 where
  start : Reachable o []
  after_create :
      {pages : List Page} (owner : ℕ) (body : Body) (checked : Db) (new_id now : ℕ)
      → Reachable o pages
      → Reachable o (create_status_page o owner body checked pages new_id now).1
  after_update :
      {pages : List Page} (owner : ℕ) (page_id : Text) (body : Body) (checked : Db)
      → Reachable o pages
      → Reachable o (update_status_page o owner page_id body checked pages).1
  after_delete :
      {pages : List Page} (owner : ℕ) (page_id : Text)
      → Reachable o pages
      → Reachable o (delete_status_page o.ids owner page_id pages).1

-- After any sequence of creations, edits and deletions by any users, whatever database the checks of
-- each saw, no two pages have the same slug, and every slug is one to sixty characters of `a-z`, `0-9`
-- and single dashes, begins with no dash, and is not reserved.
pub Reachable-IsSafe : (o : Outside) (pages : List Page) → Reachable o pages → IsSafe pages
Reachable-IsSafe o _ start = (tt, tt)
Reachable-IsSafe o _ (after_create {pages = pages} owner body checked new_id now r) =
    create_status_page-IsSafe o owner body checked pages new_id now (Reachable-IsSafe o pages r)
Reachable-IsSafe o _ (after_update {pages = pages} owner page_id body checked r) =
    update_status_page-IsSafe o owner page_id body checked pages (Reachable-IsSafe o pages r)
Reachable-IsSafe o _ (after_delete {pages = pages} owner page_id r) =
    delete_status_page-IsSafe o owner page_id pages (Reachable-IsSafe o pages r)

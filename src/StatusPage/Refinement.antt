-- ===== src/StatusPage/Refinement.antt =====
-- Backend/src/controllers/statusPage.controller.js: the owner's requests, as they act on the directory
-- of addresses.
use devops_hackathon.Prelude.{ℕ, ◌≡◌, true, false, All, none, some, List}
use devops_hackathon.Prelude.Texts.{Text}
use devops_hackathon.Http.{Outcome, Failure, returned, thrown}
use devops_hackathon.StatusPage.{Page, Body}
use devops_hackathon.StatusPage.Manage.{
  Outside, Db, create_status_page, update_status_page, delete_status_page, is_page,
}
use devops_hackathon.StatusPage.Distinct.{Distinct}
use devops_hackathon.StatusPage.Directory.{directory_of, entered, struck}

pub data Request : Type 0 where
  creation : (owner : ℕ) (body : Body) (checked : Db) (new_id now : ℕ) → Request
  edit : (owner : ℕ) (page_id : Text) (body : Body) (checked : Db) → Request
  deletion : (owner : ℕ) (page_id : Text) → Request

abbrev pub serve : Outside → Request → List Page → Outcome Page × List Page
serve o (creation owner body checked new_id now) pages =
    create_status_page o owner body checked pages new_id now
serve o (edit owner page_id body checked) pages =
    update_status_page o owner page_id body checked pages
serve o (deletion owner page_id) pages = delete_status_page o.ids owner page_id pages

-- When a request may be refused: a deletion, only if no page is the requester's with that id.
abbrev pub MayRefuse : Outside → List Page → Request → Type 0
MayRefuse o before (creation owner body checked new_id now) = Unit
MayRefuse o before (edit owner page_id body checked) = Unit
MayRefuse o before (deletion owner page_id) =
    All (λ q. is_page o.ids owner page_id q ≡ false) before

-- What each kind of request may do to a directory, given its answer. A change names the page that it
-- is about: one that is there, with the id of the request, and the requester's own.
pub data Simulated (o : Outside) (before : List Page) (x : Outcome Page × List Page)
    : Request → Type 0 where
  refused :
      {r : Request} (e : Failure)
      → MayRefuse o before r
      → x.0 ≡ thrown e
      → x.1 ≡ before
      → Simulated o before x r
  enters :
      {owner : ℕ} {body : Body} {checked : Db} {new_id now : ℕ} (p : Page)
      → x.0 ≡ returned p
      → directory_of before p.slug ≡ none
      → ((slug : Text) → directory_of x.1 slug ≡ entered p (directory_of before) slug)
      → Simulated o before x (creation owner body checked new_id now)
  moves :
      {owner : ℕ} {page_id : Text} {body : Body} {checked : Db} (q p : Page)
      → is_page o.ids owner page_id q ≡ true
      → directory_of before q.slug ≡ some q
      → x.0 ≡ returned p
      → struck q (directory_of before) p.slug ≡ none
      → ((slug : Text) → directory_of x.1 slug ≡ entered p (struck q (directory_of before)) slug)
      → Simulated o before x (edit owner page_id body checked)
  strikes :
      {owner : ℕ} {page_id : Text} (p : Page)
      → is_page o.ids owner page_id p ≡ true
      → directory_of before p.slug ≡ some p
      → x.0 ≡ returned p
      → ((slug : Text) → directory_of x.1 slug ≡ struck p (directory_of before) slug)
      → Simulated o before x (deletion owner page_id)

-- ===== src/StatusPage/Public.antt =====
-- Backend/src/controllers/statusPage.controller.js: the list of an owner's pages, and the page that an
-- anonymous visitor gets.
use devops_hackathon.Prelude.{
  ℕ, Bool, true, false, Option, none, some, List, [], ◌∷◌, map, ◌&&◌, ◌==◌, leb, if◌then◌else◌,
}
use devops_hackathon.Prelude.Texts.{Text, text_eq, filter, any}
use devops_hackathon.Http.{Outcome, returned, thrown, api_error, plain}
use devops_hackathon.Monitor.{Monitor, Status, up, down}
use devops_hackathon.Uptime.{Windows}
use devops_hackathon.StatusPage.Slug.{Unicode, slugify}
use Prim.Native.String.{String}
use devops_hackathon.StatusPage.{Page, find_first}

abbrev pub add_found : Option Monitor → List Monitor → List Monitor
add_found none ms = ms
add_found (some m) ms = m ∷ ms

-- `populate`: the monitors of a page, in its order; an id that no monitor has is left out.
abbrev pub populate : List Monitor → List ℕ → List Monitor
populate ms [] = []
populate ms (id ∷ ids) = add_found (find_first (λ m. m.id == id) ms) (populate ms ids)

-- `sort: { createdAt: -1 }`
abbrev place : Page → List Page → List Page
place p [] = p ∷ []
place p (q ∷ qs) = if leb q.created_at p.created_at then p ∷ q ∷ qs else q ∷ place p qs

abbrev newest_first : List Page → List Page
newest_first [] = []
newest_first (p ∷ ps) = place p (newest_first ps)

-- A page with what the list shows of its monitors.
pub record Listed : Type 0 where
  pub page : Page
  pub shown : List (Option String × Option Status × String)

unfoldable pub list_status_pages : (owner : ℕ) → List Page → List Monitor → List Listed
list_status_pages owner pages ms =
    map
      (λ p. record {
        page = p;
        shown = map (λ m. (m.title, m.status, m.url)) (populate ms p.monitors);
      })
      (newest_first (filter (λ p. p.user_id == owner) pages))

pub data ServiceStatus : Type 0 where
  paused : ServiceStatus
  checked : Option Status → ServiceStatus

pub record Service : Type 0 where
  pub name : Option String
  pub status : ServiceStatus
  pub last_checked_at : Option ℕ
  pub last_day : Option ℕ
  pub last_week : Option ℕ
  pub last_month : Option ℕ
  pub avg_response_ms : Option ℕ

pub data Overall : Type 0 where
  operational degraded : Overall

pub record PublicPage : Type 0 where
  pub name : Text
  pub description : Text
  pub slug : Text
  pub overall : Overall
  pub services : List Service
  pub updated_at : ℕ

-- `monitor.active === false ? 'PAUSED' : monitor.status`
abbrev status_of : (active : Option Bool) → Option Status → ServiceStatus
status_of (some false) status = paused
status_of (some true) status = checked status
status_of none status = checked status

unfoldable pub service_of : (ℕ → Windows) → Monitor → Service
service_of windows m =
    let w = windows m.id in
    record {
      name = m.title;
      status = status_of m.active m.status;
      last_checked_at = m.last_checked;
      last_day = w.last_day.uptime;
      last_week = w.last_week.uptime;
      last_month = w.last_month.uptime;
      avg_response_ms = w.last_day.avg_latency_ms;
    }

abbrev is_down : Service → Bool
is_down s = elim s.status [
  | paused ↦ false
  | checked none ↦ false
  | checked (some up) ↦ false
  | checked (some down) ↦ true
]

abbrev pub page_of : Page → (now : ℕ) → List Service → PublicPage
page_of p now services = record {
  name = p.name;
  description = p.description;
  slug = p.slug;
  overall = if any is_down services then degraded else operational;
  services = services;
  updated_at = now;
}

abbrev pub shown_page : (ℕ → Windows) → (now : ℕ) → List Monitor → Page → PublicPage
shown_page windows now ms p = page_of p now (map (service_of windows) (populate ms p.monitors))

abbrev pub answer : (Page → PublicPage) → Option Page → Outcome PublicPage
answer view none = thrown (api_error 404 (plain "Status page not found"))
answer view (some p) = returned (view p)

abbrev pub is_visible : Text → Page → Bool
is_visible slug p = text_eq p.slug slug && p.is_public

-- `windows` is `getUptimeWindows` at the logs of now.
unfoldable pub get_public_status_page :
    Unicode → List Page → List Monitor → (ℕ → Windows) → (now : ℕ) → Text → Outcome PublicPage
unfolding slugify service_of
get_public_status_page u pages ms windows now requested =
    answer (shown_page windows now ms) (find_first (is_visible (slugify u requested)) pages)

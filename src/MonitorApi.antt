-- ===== src/MonitorApi.antt =====
-- Backend/src/controllers/monitor.controller.js: the handlers by which a user creates, lists, edits
-- and deletes monitors. The body is what the validator lets through, its numbers natural; what the
-- data access answers is an argument. Encryption and the test for a scheme are the outside's.
pub mod Edits
use devops_hackathon.Prelude.{
  ℕ, max, Bool, true, false, Option, none, some, List, [], ◌∷◌, map, ◌==◌, if◌then◌else◌,
  or_default, first_some,
}
use devops_hackathon.Monitor.{Monitor}
use devops_hackathon.Store.{Reply, ok, err, DbError}
use Prim.Native.String.{String, ◌++◌ as str_append}
use text.Mathlib.Text.{◌==◌ as str_eq}

-- `none` is undefined; for the headers the inner `none` is null.
pub record Body : Type 0 where
  pub kind : Option String
  pub title : Option String
  pub name : Option String
  pub url : Option String
  pub description : Option String
  pub interval : Option ℕ
  pub timeout : Option ℕ
  pub active : Option Bool
  pub ignore_tls_errors : Option Bool
  pub failure_threshold : Option ℕ
  pub success_threshold : Option ℕ
  pub auth_headers : Option (Option (List (String × String)))

pub record Patch : Type 0 where
  pub kind : Option String
  pub title : Option String
  pub url : Option String
  pub description : Option String
  pub interval : Option ℕ
  pub timeout : Option ℕ
  pub active : Option Bool
  pub ignore_tls_errors : Option Bool
  pub failure_threshold : Option ℕ
  pub success_threshold : Option ℕ
  pub auth_headers : Option (Option String)

-- `encryptSecret(JSON.stringify(headers))`, unless it throws, and the test for `http://`.
pub record Tools : Type 0 where
  pub encrypt : List (String × String) → Option String
  pub has_scheme : String → Bool

-- `Math.max(1, Number(n) || 1)`
unfoldable pub clamp_threshold : ℕ → ℕ
clamp_threshold n = max 1 (if n == 0 then 1 else n)

abbrev clamped : Option ℕ → Option ℕ
clamped none = none
clamped (some n) = some (clamp_threshold n)

-- The headers of the patch: `none` where the encryption throws.
abbrev encrypted :
    Tools → Option (Option (List (String × String))) → Option (Option (Option String))
encrypted t none = some none
encrypted t (some none) = some (some none)
encrypted t (some (some [])) = some (some none)
encrypted t (some (some (h ∷ hs))) = elim (t.encrypt (h ∷ hs)) [
  | none ↦ none
  | some e ↦ some (some (some e))
]

abbrev with_headers : Body → Option (Option String) → Patch
with_headers b headers = record {
  kind = b.kind;
  title = first_some b.title b.name;
  url = none;
  description = b.description;
  interval = b.interval;
  timeout = b.timeout;
  active = b.active;
  ignore_tls_errors = b.ignore_tls_errors;
  failure_threshold = clamped b.failure_threshold;
  success_threshold = clamped b.success_threshold;
  auth_headers = headers;
}

unfoldable pub pick_writable_fields : Tools → Body → Option Patch
unfolding clamp_threshold
pick_writable_fields t b = elim (encrypted t b.auth_headers) [
  | none ↦ none
  | some h ↦ some (with_headers b h)
]

unfoldable pub normalize_url : Tools → String → String
normalize_url t url = if t.has_scheme url then url else str_append "https://" url

-- A monitor as a client sees it: without the headers, with whether there are any.
pub record View : Type 0 where
  pub monitor : Monitor
  pub has_auth_headers : Bool

abbrev truthy : Option String → Bool
truthy none = false
truthy (some t) = if str_eq t "" then false else true

unfoldable pub present : Monitor → View
present m = record {
  monitor = record m { auth_headers = none };
  has_auth_headers = truthy m.auth_headers;
}

-- What a handler ends in: a response, an `ApiError`, or another error that it lets through.
pub data Response : Type 0 where
  one_monitor : (status_code : ℕ) → View → (message : String) → Response
  all_monitors : (status_code : ℕ) → List View → (message : String) → Response
  no_data : (status_code : ℕ) (message : String) → Response
  api_error : (status_code : ℕ) (message : String) → Response
  encryption_error : Response
  db_error : DbError → Response

abbrev after_create : Reply Monitor → Response
after_create (ok m) = one_monitor 201 (present m) "Monitor created successfully"
after_create (err e) = api_error 500 "Internal server error"

-- The `try` of the creation: an encryption that throws is caught there too.
abbrev created : Option Patch → (Patch → Reply Monitor) → Response
created none create = api_error 500 "Internal server error"
created (some p) create = after_create (create p)

abbrev unless_found :
    Tools → Body → String → (Patch → Reply Monitor) → Reply (Option Monitor) → Response
unless_found t b url create (err e) = db_error e
unless_found t b url create (ok (some m)) = api_error 409 "This URL is already being monitored"
unless_found t b url create (ok none) =
    created
      (elim (pick_writable_fields t b) [
        | none ↦ none
        | some p ↦ some (record p { url = some url })
      ])
      create

abbrev url_required : Response
url_required = api_error 400 "URL is required"

abbrev create_with :
    Tools
    → Body
    → (String → Reply (Option Monitor))
    → (Patch → Reply Monitor)
    → Option String
    → Response
create_with t b find create none = url_required
create_with t b find create (some url) =
    if str_eq url ""
    then url_required
    else unless_found t b (normalize_url t url) create (find (normalize_url t url))

-- `find` looks for the URL among the caller's monitors, `create` makes the document.
unfoldable pub create_monitor :
    Tools → Body → (String → Reply (Option Monitor)) → (Patch → Reply Monitor) → Response
unfolding normalize_url pick_writable_fields present
create_monitor t b find create = create_with t b find create b.url

unfoldable pub get_all_monitors : Reply (List Monitor) → Response
unfolding present
get_all_monitors (ok ms) = all_monitors 200 (map present ms) "Monitors retrieved successfully"
get_all_monitors (err e) = db_error e

unfoldable pub delete_monitor : Reply (Option Monitor) → Response
delete_monitor (ok none) = api_error 404 "Monitor not found"
delete_monitor (ok (some m)) = no_data 200 "Monitor deleted successfully"
delete_monitor (err e) = db_error e

-- `if (req.body.url) patch.url = normalizeUrl(req.body.url)`
abbrev edited_url : Tools → Option String → Option String
edited_url t none = none
edited_url t (some url) = if str_eq url "" then none else some (normalize_url t url)

abbrev after_update : Reply (Option Monitor) → Response
after_update (ok none) = api_error 404 "Monitor not found"
after_update (ok (some m)) = one_monitor 200 (present m) "Monitor updated successfully"
after_update (err e) = db_error e

unfoldable pub edit_of : Tools → Body → Option Patch
unfolding pick_writable_fields normalize_url
edit_of t b = elim (pick_writable_fields t b) [
  | none ↦ none
  | some p ↦ some (record p { url = edited_url t b.url })
]

-- `update` is the data access's `updateById` with the patch.
unfoldable pub update_monitor : Tools → Body → (Patch → Reply (Option Monitor)) → Response
unfolding edit_of present
update_monitor t b update = elim (edit_of t b) [
  | none ↦ encryption_error
  | some p ↦ after_update (update p)
]

-- `$set: patch` on the stored document.
unfoldable pub set_fields : Patch → Monitor → Monitor
set_fields p m = record m {
  kind = first_some p.kind m.kind;
  title = first_some p.title m.title;
  url = or_default p.url m.url;
  description = first_some p.description m.description;
  interval = first_some p.interval m.interval;
  timeout = first_some p.timeout m.timeout;
  active = first_some p.active m.active;
  ignore_tls_errors = first_some p.ignore_tls_errors m.ignore_tls_errors;
  failure_threshold = first_some p.failure_threshold m.failure_threshold;
  success_threshold = first_some p.success_threshold m.success_threshold;
  auth_headers = or_default p.auth_headers m.auth_headers;
}

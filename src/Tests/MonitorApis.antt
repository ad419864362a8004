-- ===== src/Tests/MonitorApis.antt =====
-- Edits of the sample monitor, and the creation of one that is there already.
use devops_hackathon.Prelude.{◌≡◌, refl, true, false, none, some, [], ◌∷◌}
use devops_hackathon.Store.{ok}
use devops_hackathon.Check.{Update, assess}
use devops_hackathon.MonitorApi.{
  Tools, Body, Patch, api_error, create_monitor, update_monitor, encryption_error,
}
use devops_hackathon.Tests.Samples.{site, defaults, normal, bad}

-- No key is configured.
abbrev tools : Tools
tools = record { encrypt = λ h. none; has_scheme = λ u. true }

abbrev body : Body
body = record {
  kind = none;
  title = none;
  name = some "Shop";
  url = some "https://shop.example";
  description = none;
  interval = some 30;
  timeout = none;
  active = some false;
  ignore_tls_errors = none;
  failure_threshold = some 0;
  success_threshold = none;
  auth_headers = none;
}

abbrev edit : Patch
edit = record {
  kind = none;
  title = some "Shop";
  url = some "https://shop.example";
  description = none;
  interval = some 30;
  timeout = none;
  active = some false;
  ignore_tls_errors = none;
  failure_threshold = some 1;
  success_threshold = none;
  auth_headers = none;
}

abbrev secret_body : Body
secret_body = record body { auth_headers = some (some (("Authorization", "x") ∷ [])) }

create_existing :
    create_monitor tools body (λ u. ok (some site)) (λ p. ok site)
    ≡ api_error 409 "This URL is already being monitored"
unfolding create_monitor
create_existing = refl

create_without_key :
    create_monitor tools secret_body (λ u. ok none) (λ p. ok site)
    ≡ api_error 500 "Internal server error"
unfolding create_monitor
create_without_key = refl

update_without_key : update_monitor tools secret_body (λ p. ok (some site)) ≡ encryption_error
unfolding update_monitor
update_without_key = refl

abbrev update : Update
update = (assess defaults site normal bad 1000).update

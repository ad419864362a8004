-- ===== src/Tests/Exchanges.antt =====
-- One attempt against a server that redirects to another origin, at a platform that knows three
-- URLs.
use devops_hackathon.Prelude.{
  ℕ, ◌≡◌, refl, true, false, none, some, List, [], ◌∷◌, if◌then◌else◌, or_default,
}
use devops_hackathon.Probe.{ProbeResult}
use devops_hackathon.Probe.Attempt.{
  Platform, https_protocol, http_protocol, Options, Event, response, body_ended,
}
use devops_hackathon.Probe.Exchange.{probe_once, step}
use devops_hackathon.Probe.Exchange.Credentials.{Inv, probe_once-Inv}
use devops_hackathon.Tests.Samples.{fine}
use text.Mathlib.Text.{◌==◌ as str_eq}

abbrev platform : Platform
platform = record {
  parse = λ u.
      if str_eq u "https://a/"
      then some (record { protocol = https_protocol; origin = "https://a" })
      else if str_eq u "http://b/"
      then some (record { protocol = http_protocol; origin = "http://b" })
      else none;
  resolve = λ l u. if str_eq l "//b/" then some "http://b/" else none;
  show = λ n. "n";
}

abbrev options : Options
options = record {
  timeout_ms = 10000;
  ignore_tls_errors = false;
  max_redirects = 5;
  headers = ("Authorization", "secret") ∷ [];
}

abbrev redirected : List (ℕ × Event)
redirected = (20, response 302 (some "//b/")) ∷ (50, response 200 none) ∷ (60, body_ended) ∷ []

-- The second request goes to the other origin, without the secret.
redirected_requests :
    (probe_once platform options "https://a/" 0 redirected).sent
    ≡ record { url = "http://b/"; credentials = []; reject_unauthorized = true }
      ∷ record {
        url = "https://a/";
        credentials = ("Authorization", "secret") ∷ [];
        reject_unauthorized = true;
      }
      ∷ []
unfolding probe_once step
redirected_requests = refl

probe_once-Inv_example :
    Inv platform options "https://a/" (probe_once platform options "https://a/" 0 redirected)
probe_once-Inv_example = probe_once-Inv platform options "https://a/" 0 redirected

abbrev answered : ProbeResult
answered = or_default (probe_once platform options "https://a/" 0 redirected).settled fine

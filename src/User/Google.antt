-- ===== src/User/Google.antt =====
-- Backend/src/controllers/googleAuth.controller.js: the sign-in with a token of Google, whose
-- verification is the outside's: the payload of a token that it accepts for the configured audience.
use devops_hackathon.Prelude.{
  ℕ, zero, suc, ◌+◌, ◌*◌, Bool, true, false, Option, none, some, List, ◌&&◌, ◌||◌, not, ◌==◌, leb,
  if◌then◌else◌, or_default, or_text,
}
use devops_hackathon.Prelude.Texts.{utf16_length, any}
use devops_hackathon.Store.{Reply, ok, err}
use devops_hackathon.Http.{api_error, db_error, plain}
use devops_hackathon.User.{
  User, Outside, google, loaded, save_user, create_user, find_first, is_text, generate_access_token,
}
use devops_hackathon.User.Replies.{Settings, Run, stop, signed_in}
use devops_hackathon.User.Session.{falsy}
use Prim.Native.Char.{code}
use Prim.Native.String.{String, ◌++◌ as str_append}
use text.Mathlib.Text.{◌==◌ as str_eq}

pub record Payload : Type 0 where
  pub iss : Option String
  pub sub : String
  pub email : Option String
  pub email_verified : Option Bool
  pub name : Option String
  pub picture : Option String

-- `verifyIdToken`: the payload, which may be missing, unless it throws; and the texts of a number in
-- the bases 10 and 36.
pub record GoogleClient : Type 0 where
  pub verify_id_token : (credential audience : String) → Option (Option Payload)
  pub decimal : ℕ → String
  pub base36 : ℕ → String

abbrev pub valid_issuer : Option String → Bool
valid_issuer none = false
valid_issuer (some t) = str_eq t "accounts.google.com" || str_eq t "https://accounts.google.com"

-- `split('@')[0]`
abbrev mailbox : String → String
mailbox String.[] = ""
mailbox (String.◌∷◌ c s) = let rest = mailbox s in if code c == b'@' then "" else String.◌∷◌ c rest

-- `replace(/[^a-z0-9]/g, '')`
abbrev alphanumeric : String → String
alphanumeric String.[] = ""
alphanumeric (String.◌∷◌ c s) =
    let rest = alphanumeric s in
    if (leb b'a' (code c) && leb (code c) b'z') || (leb b'0' (code c) && leb (code c) b'9')
    then String.◌∷◌ c rest
    else rest

abbrev taken : List User → String → Bool
taken users name = any (λ u. str_eq u.username name) users

-- The attempts from the given one; `left` counts those that are left.
abbrev attempts : GoogleClient → List User → (seed fallback : String) → (left attempt : ℕ) → String
attempts g users seed fallback zero attempt = fallback
attempts g users seed fallback (suc left) attempt =
    let rest = attempts g users seed fallback left (suc attempt) in
    let candidate = if attempt == 0 then seed else str_append seed (g.decimal attempt) in
    if taken users candidate then rest else candidate

unfoldable pub allocate_username :
    Outside → GoogleClient → (email : String) → (now : ℕ) → List User → String
allocate_username o g email now users =
    let base = or_text (some (alphanumeric (o.to_lower_case (mailbox email)))) "user" in
    let seed = if leb 3 (utf16_length base) then base else str_append base "user" in
    attempts g users seed (str_append seed (g.base36 now)) 20 0

-- The account of the address, linked.
unfoldable pub linked : Payload → User → User
linked p u = record u {
  google_id = some p.sub;
  is_verified = true;
  avatar = if str_eq u.avatar "" then or_text p.picture u.avatar else u.avatar;
}

abbrev pub created_by :
    Outside → GoogleClient → Payload → (email : String) → (id now : ℕ) → List User → User
created_by o g p email id now users = record {
  id = id;
  username = allocate_username o g email now users;
  fullname = or_text p.name (mailbox email);
  email = email;
  password = none;
  provider = google;
  google_id = some p.sub;
  forgot_password_token = none;
  forgot_password_expire = none;
  is_verified = true;
  otp = none;
  otp_expire = some (now + 20 * (60 * 1000));
  avatar = or_default p.picture "";
  incident_alerts = true;
  weekly_digest = false;
  security_alerts = true;
}

abbrev pub welcomed : Outside → Settings → Reply User × List User → Run
welcomed o s (err e, users) = stop (db_error e) users
welcomed o s (ok u, users) = signed_in o s 200 "Signed in with Google successfully" u users

abbrev pub match_email :
    Outside
    → Settings
    → GoogleClient
    → Payload
    → (email : String) → (id now : ℕ) → List User
    → (by_email : Option User) → Run
match_email o s g p email id now users (some u) =
    welcomed o s (save_user o "" false (loaded (linked p u)) users)
match_email o s g p email id now users none =
    welcomed o s (create_user o "" (created_by o g p email id now users) users)

abbrev pub match_google :
    Outside
    → Settings
    → GoogleClient
    → Payload
    → (email : String) → (id now : ℕ) → List User
    → (by_google by_email : Option User) → Run
match_google o s g p email id now users (some u) by_email =
    signed_in o s 200 "Signed in with Google successfully" u users
match_google o s g p email id now users none by_email =
    match_email o s g p email id now users by_email

abbrev pub is_true : Option Bool → Bool
is_true none = false
is_true (some b) = b

abbrev pub failed : List User → Run
failed users = stop (api_error 401 (plain "Google sign-in failed. Please try again.")) users

abbrev pub by_google : Payload → List User → Option User
by_google p users = find_first (λ u. is_text u.google_id p.sub) users

abbrev pub by_email : Outside → (email : String) → List User → Option User
by_email o email users = find_first (λ u. str_eq u.email (o.trim (o.to_lower_case email))) users

abbrev pub payload_found :
    Outside
    → Settings
    → GoogleClient
    → Payload
    → (issued unverified : Bool) → (id now : ℕ) → List User
    → Run
payload_found o s g p false unverified id now users = failed users
payload_found o s g p true true id now users =
    stop (api_error 401 (plain "Your Google account does not have a verified email address")) users
payload_found o s g p true false id now users =
    let email = o.to_lower_case (or_default p.email "") in
    match_google o s g p email id now users (by_google p users) (by_email o email users)

abbrev pub with_payload :
    Outside → Settings → GoogleClient → Option (Option Payload) → (id now : ℕ) → List User → Run
with_payload o s g none id now users = failed users
with_payload o s g (some none) id now users = failed users
with_payload o s g (some (some p)) id now users =
    payload_found o s g p (valid_issuer p.iss) (falsy p.email || not (is_true p.email_verified)) id
      now users

unfoldable pub google_auth :
    Outside
    → Settings
    → GoogleClient
    → (credential : Option String) → (id now : ℕ) → List User
    → Run
unfolding allocate_username linked save_user create_user generate_access_token
google_auth o s g credential id now users =
    if str_eq s.google_client_id ""
    then stop (api_error 501 (plain "Google sign-in is not configured on this server")) users
    else if falsy credential
    then stop (api_error 400 (plain "Google credential is required")) users
    else with_payload o s g (g.verify_id_token (or_default credential "") s.google_client_id) id now
        users

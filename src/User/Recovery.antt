-- ===== src/User/Recovery.antt =====
-- Backend/src/controllers/user.controller.js: the ways to a new password, by a link that is mailed or
-- with the old one, and the update of the profile.
use devops_hackathon.Prelude.{
  ℕ, Bool, true, false, Option, none, some, List, [], ◌∷◌, ◌&&◌, ◌||◌, not, ◌==◌, ltb,
  if◌then◌else◌, or_default,
}
use devops_hackathon.Prelude.Texts.{utf16_length, any}
use devops_hackathon.Store.{Reply, ok, err}
use devops_hackathon.Http.{Failure, api_error, db_error, other_error, plain, returned}
use devops_hackathon.User.{
  User, Outside, loaded, set_password, compare_password, generate_forgot_token, save_user,
  find_user_by_email, find_user_by_id, find_user_by_forgot_token, put,
}
use devops_hackathon.User.Replies.{
  Settings, Mail, Run, stop, reply, and_mail, without_password, send_notification_email,
  cookie_kept,
}
use devops_hackathon.User.Session.{falsy}
use Prim.Native.Char.{code}
use Prim.Native.String.{String, ◌++◌ as str_append}
use text.Mathlib.Text.{◌==◌ as str_eq}

-- `replace(/\/+$/, '')`
abbrev without_last_slashes : String → String
without_last_slashes String.[] = ""
without_last_slashes (String.◌∷◌ c s) = elim (without_last_slashes s) [
  | String.[] ↦ if code c == b'/' then "" else (String.◌∷◌ c String.[])
  | String.◌∷◌ d t ↦ String.◌∷◌ c (String.◌∷◌ d t)
]

unfoldable pub reset_url : Settings → (token : String) → String
reset_url s token =
    str_append (without_last_slashes s.frontend_url) (str_append "/reset-password/" token)

abbrev pub link_sent : List User → Run
link_sent users = reply 200 "If an account exists for that email, a reset link has been sent." users

abbrev after_token : (Mail → Option String) → Mail → Reply User × List User → Run
after_token deliver mail (err e, users) = stop (db_error e) users
after_token deliver mail (ok saved, users) = and_mail deliver mail (link_sent users)

abbrev pub blank : Outside → Option String → Bool
blank o none = true
blank o (some t) = str_eq t "" || str_eq (o.trim t) ""

abbrev pub link_mail : Settings → (token : String) → User → Mail
link_mail s token u = record {
  recipient = u.email;
  subject = "Reset your WatchTower password";
  link = some (reset_url s token);
}

abbrev pub send_link :
    Outside
    → Settings
    → (Mail → Option String)
    → (token : String) → (now : ℕ) → List User
    → Option User
    → Run
send_link o s deliver token now users none = link_sent users
send_link o s deliver token now users (some u) =
    after_token deliver (link_mail s token u)
      (save_user o "" false (loaded (generate_forgot_token o token now u)) users)

-- `token` is the random token of the link.
unfoldable pub forgot_password :
    Outside
    → Settings
    → (Mail → Option String)
    → (email : Option String) → (token : String) → (now : ℕ) → List User
    → Run
unfolding find_user_by_email generate_forgot_token save_user reset_url send_notification_email
forgot_password o s deliver email token now users =
    if blank o email
    then stop (api_error 400 (plain "Email is required")) users
    else send_link o s deliver token now users
        (find_user_by_email o (o.trim (or_default email "")) users)

abbrev pub saved_as : (Run → Run) → (message : String) → Reply User × List User → Run
saved_as after message (err e, users) = stop (db_error e) users
saved_as after message (ok u, users) = after (reply 200 message users)

abbrev pub change_found :
    Outside → (new_password salt : String) → List User → User → (correct : Bool) → Run
change_found o new_password salt users u false =
    stop (api_error 401 (plain "Invalid password")) users
change_found o new_password salt users u true =
    saved_as (λ run. run) "Password changed successfully"
      (save_user o salt true (set_password new_password (loaded u)) users)

abbrev pub change_with :
    Outside
    → (old_password : Option String) → (new_password salt : String) → List User
    → Option User
    → Run
change_with o old_password new_password salt users none =
    stop (other_error "Cannot read properties of null") users
change_with o old_password new_password salt users (some u) =
    change_found o new_password salt users u (compare_password o u old_password)

unfoldable pub change_password :
    Outside
    → (caller : ℕ) → (old_password new_password : Option String) → (salt : String) → List User
    → Run
unfolding compare_password set_password save_user
change_password o caller old_password new_password salt users =
    if falsy old_password || falsy new_password
    then stop (api_error 401 (plain "Invalid password")) users
    else change_with o old_password (or_default new_password "") salt users
        (find_user_by_id caller users)

abbrev pub without_reset : User → User
without_reset u = record u { forgot_password_token = none; forgot_password_expire = none }

abbrev pub changed_mail : User → Mail
changed_mail u = record {
  recipient = u.email;
  subject = "Your WatchTower password was changed";
  link = none;
}

abbrev pub invalid_link : Failure
invalid_link = api_error 400 (plain "This reset link is invalid or has expired")

abbrev pub reset_found :
    Outside → (Mail → Option String) → (new_password salt : String) → List User → Option User → Run
reset_found o deliver new_password salt users none = stop invalid_link users
reset_found o deliver new_password salt users (some u) =
    saved_as (and_mail deliver (changed_mail u))
      "Password reset successfully. You can now sign in with your new password."
      (save_user o salt true (set_password new_password (loaded (without_reset u))) users)

unfoldable pub reset_password :
    Outside
    → (Mail → Option String)
    → (token : String) → (new_password : Option String) → (salt : String) → (now : ℕ) → List User
    → Run
unfolding find_user_by_forgot_token set_password save_user send_notification_email
reset_password o deliver token new_password salt now users =
    if falsy new_password
    then stop (api_error 400 (plain "New password is required")) users
    else if ltb (utf16_length (or_default new_password "")) 6
    then stop (api_error 400 (plain "New password must be at least 6 characters")) users
    else reset_found o deliver (or_default new_password "") salt users
        (find_user_by_forgot_token o token now users)

abbrev starts_with : String → String → Bool
starts_with String.[] t = true
starts_with (String.◌∷◌ c p) String.[] = false
starts_with (String.◌∷◌ c p) (String.◌∷◌ d t) = (code c == code d) && starts_with p t

-- `/^data:image\/(png|jpe?g|webp|gif);base64,/`
abbrev is_image : String → Bool
is_image t =
    any (λ p. starts_with p t)
      ("data:image/png;base64," ∷ "data:image/jpg;base64," ∷ "data:image/jpeg;base64,"
        ∷ "data:image/webp;base64," ∷ "data:image/gif;base64," ∷ [])

-- A field is none unless it has the type that the handler takes.
pub record ProfileUpdate : Type 0 where
  pub avatar : Option String
  pub incident_alerts : Option Bool
  pub weekly_digest : Option Bool
  pub security_alerts : Option Bool

abbrev pub avatar_failure : Option String → Option Failure
avatar_failure none = none
avatar_failure (some t) =
    if not (str_eq t "") && not (is_image t)
    then some (api_error 400 (plain "Avatar must be a PNG, JPG, WEBP or GIF image"))
    else if ltb 1200000 (utf16_length t)
    then some (api_error 400 (plain "Avatar is too large. Max size is 800KB."))
    else none

abbrev is_none : {A : Type 0} → Option A → Bool
is_none none = true
is_none (some a) = false

abbrev pub is_nothing : ProfileUpdate → Bool
is_nothing b =
    is_none b.avatar
    && is_none b.incident_alerts
    && is_none b.weekly_digest
    && is_none b.security_alerts

abbrev pub with_profile : ProfileUpdate → User → User
with_profile b u = record u {
  avatar = or_default b.avatar u.avatar;
  incident_alerts = or_default b.incident_alerts u.incident_alerts;
  weekly_digest = or_default b.weekly_digest u.weekly_digest;
  security_alerts = or_default b.security_alerts u.security_alerts;
}

abbrev pub profile_of : (found : Option User) → ProfileUpdate → List User → Run
profile_of none b users = stop (api_error 404 (plain "User not found")) users
profile_of (some u) b users = record {
  result = returned record {
    status_code = 200;
    user = some (without_password (with_profile b u));
    token = none;
    message = "Profile updated successfully";
    cookie = cookie_kept;
  };
  users = put (with_profile b u) users;
  mails = [];
}

abbrev pub profile_with :
    (failed : Option Failure)
    → (nothing : Bool) → (found : Option User) → ProfileUpdate
    → List User
    → Run
profile_with (some e) nothing found b users = stop e users
profile_with none true found b users = stop (api_error 400 (plain "Nothing to update")) users
profile_with none false found b users = profile_of found b users

unfoldable pub update_profile : (caller : ℕ) → ProfileUpdate → List User → Run
update_profile caller b users =
    profile_with (avatar_failure b.avatar) (is_nothing b) (find_user_by_id caller users) b users

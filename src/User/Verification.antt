-- ===== src/User/Verification.antt =====
-- Backend/src/controllers/user.controller.js: the verification of an account by a code.
use devops_hackathon.Prelude.{ℕ, Bool, true, false, Option, none, some, List, ◌||◌, not, ltb}
use devops_hackathon.Store.{Reply, ok, err}
use devops_hackathon.Http.{api_error, db_error, plain}
use devops_hackathon.User.{User, Outside, loaded, save_user, find_user_by_id}
use Prim.Native.String.{String}
use text.Mathlib.Text.{◌==◌ as str_eq}
use devops_hackathon.User.Replies.{Mail, Run, stop, reply, send_notification_email, and_mail}

-- `===` on values that may be undefined.
abbrev pub same_otp : Option String → Option String → Bool
same_otp none none = true
same_otp none (some t) = false
same_otp (some s) none = false
same_otp (some s) (some t) = str_eq s t

-- `t < now`, which is false for undefined.
abbrev pub is_past : (now : ℕ) → Option ℕ → Bool
is_past now none = false
is_past now (some t) = ltb t now

abbrev pub verified_user : User → User
verified_user u = record u { is_verified = true; otp = none; otp_expire = none }

abbrev pub after_verify : (Mail → Option String) → User → Reply User × List User → Run
after_verify deliver u (err e, users) = stop (db_error e) users
after_verify deliver u (ok saved, users) =
    and_mail deliver record { recipient = u.email; subject = "User Verified"; link = none }
      (reply 200 "User verified successfully" users)

abbrev pub verify_found :
    Outside → (Mail → Option String) → List User → User → (verified refused : Bool) → Run
verify_found o deliver users u true refused = reply 400 "User is already verified" users
verify_found o deliver users u false true =
    stop (api_error 400 (plain "Invalid or expired OTP")) users
verify_found o deliver users u false false =
    after_verify deliver u (save_user o "" false (loaded (verified_user u)) users)

abbrev pub verify_with :
    Outside
    → (Mail → Option String)
    → (otp : Option String) → (now : ℕ) → List User
    → Option User
    → Run
verify_with o deliver otp now users none = stop (api_error 404 (plain "User not found")) users
verify_with o deliver otp now users (some u) =
    verify_found o deliver users u u.is_verified
      (not (same_otp u.otp otp) || is_past now u.otp_expire)

unfoldable pub verify_user :
    Outside
    → (Mail → Option String)
    → (id : ℕ) → (otp : Option String) → (now : ℕ) → List User
    → Run
unfolding save_user send_notification_email
verify_user o deliver id otp now users =
    verify_with o deliver otp now users (find_user_by_id id users)

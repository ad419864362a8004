-- ===== src/User/Session.antt =====
-- Backend/src/controllers/user.controller.js: registration, login, logout and the profile.
use devops_hackathon.Prelude.{
  ◌⊎◌, inl, inr, ℕ, ◌+◌, ◌*◌, Bool, true, false, Option, none, some, List, [], ◌&&◌, if◌then◌else◌,
  or_default,
}
use devops_hackathon.Store.{Reply, ok, err}
use devops_hackathon.Http.{
  Outcome, Failure, thrown, returned, api_error, db_error, other_error, plain,
}
use devops_hackathon.User.{
  User, Claims, Outside, loaded, local, compare_password, generate_access_token, save_user,
  create_user, find_user_by_email_or_username, find_user_by_id,
}
use Prim.Native.String.{String}
use text.Mathlib.Text.{◌==◌ as str_eq}
use devops_hackathon.User.Replies.{
  Settings, cookie_kept, cookie_cleared, Run, stop, without_password, signed_in,
}

pub record Registration : Type 0 where
  pub username : Option String
  pub email : Option String
  pub fullname : Option String
  pub password : Option String

abbrev pub new_user : (id now : ℕ) → String → Registration → User
new_user id now username b = record {
  id = id;
  username = username;
  fullname = or_default b.fullname "";
  email = or_default b.email "";
  password = b.password;
  provider = local;
  google_id = none;
  forgot_password_token = none;
  forgot_password_expire = none;
  is_verified = false;
  otp = none;
  otp_expire = some (now + 20 * (60 * 1000));
  avatar = "";
  incident_alerts = true;
  weekly_digest = false;
  security_alerts = true;
}

-- `if (config.AUTO_VERIFY_USERS)`
abbrev pub verify_at_once :
    Outside → User → (auto_verify : Bool) → List User → Reply User × List User
verify_at_once o u true users = save_user o "" true (loaded (record u { is_verified = true })) users
verify_at_once o u false users = (ok u, users)

abbrev pub after_save : Outside → Settings → User → Reply User × List User → Run
after_save o s u (err e, users) = stop (db_error e) users
after_save o s u (ok saved, users) = elim (find_user_by_id u.id users) [
  | none ↦ stop (api_error 500 (plain "Something went wrong while registering the user")) users
  | some found ↦ signed_in o s 201 "User registered successfully" found users
]

abbrev pub after_register : Outside → Settings → Reply User × List User → Run
after_register o s (err e, users) = stop (db_error e) users
after_register o s (ok u, users) = after_save o s u (verify_at_once o u s.auto_verify_users users)

abbrev pub register_new :
    Outside
    → Settings
    → Registration
    → (salt : String) → (id now : ℕ) → List User
    → (username : Option String) → (existed : Option User) → Run
register_new o s b salt id now users username (some u) =
    stop (api_error 409 (plain "User with email or username already exists")) users
register_new o s b salt id now users none none =
    stop (other_error "Cannot read properties of undefined") users
register_new o s b salt id now users (some name) none =
    after_register o s (create_user o salt (new_user id now (o.to_lower_case name) b) users)

unfoldable pub register_user :
    Outside → Settings → Registration → (salt : String) → (id now : ℕ) → List User → Run
unfolding find_user_by_email_or_username create_user save_user generate_access_token
register_user o s b salt id now users =
    register_new o s b salt id now users b.username
      (find_user_by_email_or_username o b.email b.username users)

abbrev pub falsy : Option String → Bool
falsy none = true
falsy (some t) = str_eq t ""

pub record Login : Type 0 where
  pub email : Option String
  pub username : Option String
  pub password : Option String

abbrev pub login_as : Outside → Settings → User → (password_valid verified : Bool) → List User → Run
login_as o s u false verified users = stop (api_error 401 (plain "Invalid user credentials")) users
login_as o s u true false users =
    stop (api_error 401 (plain "User is not verified. Please verify your email first.")) users
login_as o s u true true users = signed_in o s 200 "User logged in successfully" u users

abbrev pub login_found :
    Outside → Settings → (password : Option String) → List User → Option User → Run
login_found o s password users none = stop (api_error 404 (plain "User does not exist")) users
login_found o s password users (some u) =
    login_as o s u (compare_password o u password) u.is_verified users

unfoldable pub login_user : Outside → Settings → Login → List User → Run
unfolding find_user_by_email_or_username compare_password generate_access_token
login_user o s b users =
    if falsy b.username && falsy b.email
    then stop (api_error 400 (plain "username or email is required")) users
    else login_found o s b.password users
        (find_user_by_email_or_username o b.email b.username users)

unfoldable pub logout_user : Settings → List User → Run
logout_user s users = record {
  result = returned record {
    status_code = 200;
    user = none;
    token = none;
    message = "User logged out";
    cookie = cookie_cleared s.production;
  };
  users = users;
  mails = [];
}

unfoldable pub get_user_profile : (caller : ℕ) → List User → Run
get_user_profile caller users = elim (find_user_by_id caller users) [
  | none ↦ stop (api_error 404 (plain "User not found")) users
  | some u ↦ record {
    result = returned record {
      status_code = 200;
      user = some (without_password u);
      token = none;
      message = "User profile retrieved successfully";
      cookie = cookie_kept;
    };
    users = users;
    mails = [];
  }
]

abbrev unauthorized : Failure
unauthorized = api_error 401 (plain "Unauthorized request")

abbrev or_invalid : Option String → Failure
or_invalid none = api_error 401 (plain "Invalid access token")
or_invalid (some m) =
    if str_eq m "" then api_error 401 (plain "Invalid access token") else api_error 401 (plain m)

abbrev pub token_claims : (Claims ⊎ Option String) → Outcome Claims
token_claims (inl c) = returned c
token_claims (inr m) = thrown (or_invalid m)

-- `verifyJWT`, the claims that it puts on the request; `jwt` is the claims of a token, or the message of
-- the error that `jwt.verify` throws.
unfoldable pub verify_jwt :
    (jwt : String → Claims ⊎ Option String) → (cookie : Option String) → Outcome Claims
verify_jwt jwt none = thrown unauthorized
verify_jwt jwt (some token) =
    if str_eq token "" then thrown unauthorized else token_claims (jwt token)

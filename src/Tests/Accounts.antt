-- ===== src/Tests/Accounts.antt =====
-- An account, its lost password, and its ways in.
use devops_hackathon.Prelude.{◌≡◌, refl, true, false, Option, none, some, [], ◌∷◌, ◌⊎◌, inl, arith}
use devops_hackathon.Http.{Failure, returned, thrown, api_error, plain}
use devops_hackathon.User.{
  User, Claims, claims_of, Outside, local, put, generate_forgot_token, find_user_by_forgot_token,
  validates, find_user_by_id, find_user_by_email, find_user_by_email_or_username, compare_password,
}
use devops_hackathon.User.Replies.{
  Settings, Mail, Response, signed_in, stop, reply, without_password, cookie_set,
}
use devops_hackathon.User.Session.{Login, Registration, register_user, login_user, verify_jwt}
use devops_hackathon.User.Verification.{verify_user}
use devops_hackathon.User.Recovery.{forgot_password, reset_password}
use devops_hackathon.User.Google.{GoogleClient, Payload, google_auth, linked}
use devops_hackathon.User.Recovered.{forgot_password-blind, reset_user}
use devops_hackathon.User.Links.{reset_password_once}
use devops_hackathon.User.Restored.{reset_password-login_user, Accepts}
use devops_hackathon.User.Hashed.{AllHashed}
use devops_hackathon.User.Histories.{start, after_registration, Reachable-hashed}
use devops_hackathon.User.Admitted.{
  login_user-verify_jwt, IsAdmitted, verify_user_without_otp, google_auth-login_user,
}
use Prim.Native.String.{String}
use text.Mathlib.Text.{◌==◌ as str_eq}

abbrev outside : Outside
outside = record {
  hash = λ salt t. "hashed";
  compare = λ t h. str_eq h "hashed";
  sha256 = λ t. t;
  sign = λ c. c.email;
  to_lower_case = λ t. t;
  trim = λ t. t;
}

accepts : Accepts outside
accepts salt t = (refl, refl)

abbrev settings : Settings
settings = record {
  auto_verify_users = false;
  production = true;
  frontend_url = "https://watch.example/";
  google_client_id = "client";
}

abbrev ann : User
ann = record {
  id = 3;
  username = "ann";
  fullname = "Ann";
  email = "ann@shop.example";
  password = some "hashed";
  provider = local;
  google_id = none;
  forgot_password_token = none;
  forgot_password_expire = none;
  is_verified = true;
  otp = none;
  otp_expire = some 1200000;
  avatar = "";
  incident_alerts = true;
  weekly_digest = false;
  security_alerts = true;
}

abbrev asked : User
asked = record ann { forgot_password_token = some "token"; forgot_password_expire = some 900000 }

abbrev undelivered : Mail → Option String
undelivered m = some "ETIMEDOUT"

forgot_password-blind_example :
    (forgot_password outside settings undelivered
      (some "ann@shop.example")
      "token"
      0
      (ann ∷ [])).result
    ≡ (forgot_password outside settings (λ m. none) (some "ann@shop.example") "token2" 0 []).result
forgot_password-blind_example =
    forgot_password-blind outside settings (some "ann@shop.example") 0 undelivered (λ m. none)
      "token" "token2" (ann ∷ []) []

reset_password_once_example :
    let users1 =
      (reset_password outside undelivered "token" (some "secret7") "salt" 5 (asked ∷ [])).users in
    (w : User) × (e : Failure) × (users1 ≡ put w (asked ∷ []))
    × (w.id ≡ 3)
    × (w.email ≡ asked.email)
    × (w.password ≡ some "hashed")
    × (reset_password outside undelivered "token" (some "another") "salt" 6 users1
        ≡ stop e (put w (asked ∷ [])))
reset_password_once_example =
    reset_password_once outside undelivered "token" "secret7" "salt" "salt" (some "another") 5 6
      (asked ∷ []) asked (inl refl, tt) (unfold find_user_by_forgot_token in refl)
      (unfold validates in refl) refl refl

reset_password-login_user_example :
    (let users1 =
        (forgot_password outside settings undelivered
          (some "ann@shop.example")
          "token"
          0
          (ann ∷ [])).users in
      let users2 =
        (reset_password outside undelivered "token" (some "secret7") "salt" 899999 users1).users in
      login_user outside settings
        record { email = some "ann@shop.example"; username = none; password = some "secret7" }
        users2
      ≡ signed_in outside settings 200 "User logged in successfully"
          (reset_user outside "salt" "secret7" (generate_forgot_token outside "token" 0 ann))
          users2)
reset_password-login_user_example =
    reset_password-login_user outside settings undelivered "ann@shop.example" "token" "secret7"
      "salt" 0 899999 (ann ∷ []) ann accepts refl (unfold find_user_by_email in refl) (inl refl, tt)
      refl (unfold validates in refl) refl (ground arith) refl refl

abbrev registration : Registration
registration = record {
  username = some "ann";
  email = some "ann@shop.example";
  fullname = some "Ann";
  password = some "secret7";
}

Reachable-hashed_example :
    AllHashed outside (register_user outside settings registration "salt" 3 0 []).users
Reachable-hashed_example =
    Reachable-hashed outside settings
      record { verify_id_token = λ c a. none; decimal = λ n. ""; base36 = λ n. "" } undelivered
      (register_user outside settings registration "salt" 3 0 []).users
      (after_registration registration "salt" 3 0 start)

abbrev attempt : Login
attempt = record { email = some "ann@shop.example"; username = none; password = some "secret7" }

abbrev session : Response
session = record {
  status_code = 200;
  user = some (without_password ann);
  token = some "ann@shop.example";
  message = "User logged in successfully";
  cookie = cookie_set "ann@shop.example" true;
}

logged_in : (login_user outside settings attempt (ann ∷ [])).result ≡ returned session
unfolding login_user
logged_in = refl

-- A token is the address of its account.
abbrev jwt : String → Claims ⊎ Option String
jwt token = inl record { id = 3; email = token; username = "ann" }

login_user-verify_jwt_example :
    (u : User) × (find_user_by_email_or_username outside (some "ann@shop.example") none (ann ∷ [])
      ≡ some u)
    × IsAdmitted outside settings (some "secret7") u session
    × (verify_jwt jwt (some "ann@shop.example") ≡ returned (claims_of u))
login_user-verify_jwt_example =
    login_user-verify_jwt outside settings jwt attempt (ann ∷ []) session ((refl, refl), tt)
      logged_in

-- The account as it is registered where nothing verifies it.
abbrev unverified : User
unverified = record ann { is_verified = false }

registered : (register_user outside settings registration "salt" 3 0 []).users ≡ unverified ∷ []
unfolding register_user
registered = refl

verify_user_without_otp_example :
    let run = verify_user outside undelivered 3 none 1000 (unverified ∷ []) in
    (w : User) × (run.result ≡ (reply 200 "User verified successfully" (unverified ∷ [])).result)
    × (run.users ≡ put w (unverified ∷ []))
    × (find_user_by_id 3 run.users ≡ some w)
    × (w.is_verified ≡ true)
    × (w.email ≡ unverified.email)
    × (w.password ≡ unverified.password)
verify_user_without_otp_example =
    verify_user_without_otp outside undelivered 3 1000 (unverified ∷ []) unverified refl refl refl
      refl

abbrev payload : Payload
payload = record {
  iss = some "https://accounts.google.com";
  sub = "sub-1";
  email = some "ann@shop.example";
  email_verified = some true;
  name = some "Ann";
  picture = none;
}

abbrev client : GoogleClient
client = record {
  verify_id_token = λ c a. some (some payload);
  decimal = λ n. "1";
  base36 = λ n. "z";
}

google_auth-login_user_example :
    ((login_user outside settings attempt (unverified ∷ [])).result
      ≡ thrown (api_error 401 (plain "User is not verified. Please verify your email first.")))
    × (login_user outside settings attempt
          (google_auth outside settings client (some "credential") 4 0 (unverified ∷ [])).users
        ≡ signed_in outside settings 200 "User logged in successfully"
            (linked payload unverified)
            (google_auth outside settings client (some "credential") 4 0 (unverified ∷ [])).users)
google_auth-login_user_example =
    google_auth-login_user outside settings client "credential" "ann@shop.example" "secret7" payload
      4 0 (unverified ∷ []) unverified refl refl refl refl refl refl refl refl refl
      (unfold find_user_by_email in refl) refl (unfold compare_password in refl)

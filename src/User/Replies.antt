-- ===== src/User/Replies.antt =====
-- Backend/src/controllers/user.controller.js: the responses of the handlers and the mails. A handler
-- takes the collection and returns it with its outcome and the mails that it tries to send; `deliver`
-- is the error of a mail that cannot be sent.
use devops_hackathon.Prelude.{ℕ, Bool, Option, none, some, List, [], ◌∷◌}
use devops_hackathon.Http.{Outcome, returned, thrown, ◌>>=◌, Failure}
use devops_hackathon.User.{User, Outside, generate_access_token}
use Prim.Native.String.{String}

pub record Settings : Type 0 where
  pub auto_verify_users : Bool
  pub production : Bool
  pub frontend_url : String
  pub google_client_id : String

pub record Mail : Type 0 where
  pub recipient : String
  pub subject : String
  pub link : Option String

-- What a response does with the session's cookie, which is always `httpOnly` and `sameSite: strict`.
pub data CookieAction : Type 0 where
  cookie_kept : CookieAction
  cookie_set : (token : String) (secure : Bool) → CookieAction
  cookie_cleared : (secure : Bool) → CookieAction

pub record Response : Type 0 where
  pub status_code : ℕ
  pub user : Option User
  pub token : Option String
  pub message : String
  pub cookie : CookieAction

pub record Run : Type 0 where
  pub result : Outcome Response
  pub users : List User
  pub mails : List Mail

abbrev pub stop : Failure → List User → Run
stop e users = record { result = thrown e; users = users; mails = [] }

abbrev pub reply : (status : ℕ) → (message : String) → List User → Run
reply status message users = record {
  result = returned record {
    status_code = status;
    user = none;
    token = none;
    message = message;
    cookie = cookie_kept;
  };
  users = users;
  mails = [];
}

-- `sendNotificationEmail`: a mail that cannot be sent is no failure of the caller.
unfoldable pub send_notification_email : (error : Option String) → Outcome Unit
send_notification_email none = returned tt
send_notification_email (some e) = returned tt

abbrev pub and_mail : (Mail → Option String) → Mail → Run → Run
and_mail deliver mail run = record run {
  result = send_notification_email (deliver mail) >>= λ _. run.result;
  mails = mail ∷ [];
}

-- `select: false`
abbrev pub without_password : User → User
without_password u = record u { password = none }

-- The session that a user is given.
abbrev pub signed_in :
    Outside → Settings → (status : ℕ) → (message : String) → User → List User → Run
signed_in o s status message u users = record {
  result = returned record {
    status_code = status;
    user = some (without_password u);
    token = some (generate_access_token o u);
    message = message;
    cookie = cookie_set (generate_access_token o u) s.production;
  };
  users = users;
  mails = [];
}

-- ===== src/User/Histories.antt =====
-- Backend/src/controllers/user.controller.js and googleAuth.controller.js: the collection of accounts
-- after any sequence of requests.
use devops_hackathon.Prelude.{ℕ, Option, List, []}
use devops_hackathon.User.{User, Outside}
use devops_hackathon.User.Replies.{Settings, Mail}
use devops_hackathon.User.Session.{Registration, register_user}
use devops_hackathon.User.Verification.{verify_user}
use devops_hackathon.User.Recovery.{
  forgot_password, reset_password, change_password, update_profile, ProfileUpdate,
}
use devops_hackathon.User.Google.{GoogleClient, google_auth}
use devops_hackathon.User.Hashed.{AllHashed}
use Prim.Native.String.{String}
use devops_hackathon.User.Upkeep.{
  verify_user-hashed, forgot_password-hashed, reset_password-hashed, change_password-hashed,
  update_profile-hashed, google_auth-hashed, register_user-hashed,
}

-- The collections that requests lead to, in any order, from none.
pub data Reachable (o : Outside) (s : Settings) (g : GoogleClient) (deliver : Mail → Option String)
    : List User → Type 0 where
  start : Reachable o s g deliver []
  after_registration :
      {users : List User} (b : Registration) (salt : String) (id now : ℕ)
      → Reachable o s g deliver users
      → Reachable o s g deliver (register_user o s b salt id now users).users
  after_google :
      {users : List User} (credential : Option String) (id now : ℕ)
      → Reachable o s g deliver users
      → Reachable o s g deliver (google_auth o s g credential id now users).users
  after_verification :
      {users : List User} (id : ℕ) (otp : Option String) (now : ℕ)
      → Reachable o s g deliver users
      → Reachable o s g deliver (verify_user o deliver id otp now users).users
  after_forgetting :
      {users : List User} (email : Option String) (token : String) (now : ℕ)
      → Reachable o s g deliver users
      → Reachable o s g deliver (forgot_password o s deliver email token now users).users
  after_reset :
      {users : List User} (token : String) (t : Option String) (salt : String) (now : ℕ)
      → Reachable o s g deliver users
      → Reachable o s g deliver (reset_password o deliver token t salt now users).users
  after_change :
      {users : List User} (caller : ℕ) (old t : Option String) (salt : String)
      → Reachable o s g deliver users
      → Reachable o s g deliver (change_password o caller old t salt users).users
  after_profile :
      {users : List User} (caller : ℕ) (b : ProfileUpdate)
      → Reachable o s g deliver users
      → Reachable o s g deliver (update_profile caller b users).users

-- After any sequence of registrations, sign-ins with Google, verifications, requests for a link,
-- resets, changes of a password and updates of a profile, every stored password is the hash of a text
-- with a salt.
pub Reachable-hashed :
    (o : Outside) (s : Settings) (g : GoogleClient) (deliver : Mail → Option String)
    (users : List User)
    → Reachable o s g deliver users
    → AllHashed o users
Reachable-hashed o s g deliver _ start = tt
Reachable-hashed o s g deliver _ (after_registration {users = users} b salt id now r) =
    register_user-hashed o s b salt id now users (Reachable-hashed o s g deliver users r)
Reachable-hashed o s g deliver _ (after_google {users = users} credential id now r) =
    google_auth-hashed o s g credential id now users (Reachable-hashed o s g deliver users r)
Reachable-hashed o s g deliver _ (after_verification {users = users} id otp now r) =
    verify_user-hashed o deliver id otp now users (Reachable-hashed o s g deliver users r)
Reachable-hashed o s g deliver _ (after_forgetting {users = users} email token now r) =
    forgot_password-hashed o deliver s email token now users
      (Reachable-hashed o s g deliver users r)
Reachable-hashed o s g deliver _ (after_reset {users = users} token t salt now r) =
    reset_password-hashed o deliver token t salt now users (Reachable-hashed o s g deliver users r)
Reachable-hashed o s g deliver _ (after_change {users = users} caller old t salt r) =
    change_password-hashed o caller old t salt users (Reachable-hashed o s g deliver users r)
Reachable-hashed o s g deliver _ (after_profile {users = users} caller b r) =
    update_profile-hashed o caller b users (Reachable-hashed o s g deliver users r)

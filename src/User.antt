-- ===== src/User.antt =====
-- Backend/src/models/user.model.js and services/user.service.js: the accounts. bcrypt, SHA-256, the
-- signature of a session token, and the case and white space of texts are the outside's; the
-- collection is a list, whose calls succeed unless the schema or a unique index refuses them.
pub mod Replies
pub mod Session
pub mod Verification
pub mod Recovery
pub mod Google
pub mod Storing
pub mod Recovered
pub mod Links
pub mod Restored
pub mod Hashed
pub mod Upkeep
pub mod Histories
pub mod Admitted
use devops_hackathon.Prelude.{
  ℕ, ◌+◌, ◌*◌, ◌≡◌, Bool, true, false, Option, none, some, List, [], ◌∷◌, ◌++◌, map, ◌&&◌, ◌||◌,
  not, ◌==◌, leb, ltb, if◌then◌else◌, or_default,
}
use devops_hackathon.Prelude.Texts.{utf16_length, any}
use devops_hackathon.Store.{Reply, ok, err, DbError, duplicate_key, failure}
use Prim.Native.String.{String}
use text.Mathlib.Text.{◌==◌ as str_eq}

pub data Provider : Type 0 where
  local google : Provider

-- The fields that the handlers read or write.
pub record User : Type 0 where
  pub id : ℕ
  pub username : String
  pub fullname : String
  pub email : String
  pub password : Option String
  pub provider : Provider
  pub google_id : Option String
  pub forgot_password_token : Option String
  pub forgot_password_expire : Option ℕ
  pub is_verified : Bool
  pub otp : Option String
  pub otp_expire : Option ℕ
  pub avatar : String
  pub incident_alerts : Bool
  pub weekly_digest : Bool
  pub security_alerts : Bool

-- What `generateAccessToken` signs.
pub record Claims : Type 0 where
  pub id : ℕ
  pub email : String
  pub username : String

pub record Outside : Type 0 where
  pub hash : (salt : String) → (password : String) → String
  pub compare : (password : String) → (hashed : String) → Bool
  pub sha256 : String → String
  pub sign : Claims → String
  pub to_lower_case : String → String
  pub trim : String → String

abbrev pub find_first : {A : Type 0} → (A → Bool) → List A → Option A
find_first p [] = none
find_first p (x ∷ xs) = if p x then some x else find_first p xs

abbrev pub is_text : Option String → String → Bool
is_text none t = false
is_text (some u) t = str_eq u t

-- A document in memory, with `isModified('password')`.
pub record Document : Type 0 where
  pub user : User
  pub password_modified : Bool

abbrev pub loaded : User → Document
loaded u = record { user = u; password_modified = false }

-- `user.password = t`: a value that is there already modifies nothing.
unfoldable pub set_password : String → Document → Document
set_password t d =
    if is_text d.user.password t
    then d
    else record { user = record d.user { password = some t }; password_modified = true }

-- The hook before a save; the salt is what `genSalt` draws.
unfoldable pub pre_save : Outside → (salt : String) → Document → User
pre_save o salt d = elim d.user.password [
  | none ↦ d.user
  | some t ↦
      if d.password_modified then record d.user { password = some (o.hash salt t) } else d.user
]

abbrev pub compare_hash : Outside → Option String → Option String → Bool
compare_hash o none entered = false
compare_hash o (some hashed) none = false
compare_hash o (some hashed) (some entered) =
    if str_eq hashed "" || str_eq entered "" then false else o.compare entered hashed

unfoldable pub compare_password : Outside → User → Option String → Bool
compare_password o u entered = compare_hash o u.password entered

-- `generateForgotToken`; the token is the 32 random bytes in hexadecimal.
unfoldable pub generate_forgot_token : Outside → (token : String) → (now : ℕ) → User → User
generate_forgot_token o token now u = record u {
  forgot_password_token = some (o.sha256 token);
  forgot_password_expire = some (now + 15 * (60 * 1000));
}

abbrev pub claims_of : User → Claims
claims_of u = record { id = u.id; email = u.email; username = u.username }

unfoldable pub generate_access_token : Outside → User → String
generate_access_token o u = o.sign (claims_of u)

-- `generateOTP`, with the code that is drawn.
unfoldable pub generate_otp : (code : String) → (now : ℕ) → User → User
generate_otp code now u = record u { otp = some code; otp_expire = some (now + 20 * (60 * 1000)) }

-- `save`: every document with the id is the saved one.
abbrev pub put : User → List User → List User
put u [] = []
put u (v ∷ vs) = (if v.id == u.id then u else v) ∷ put u vs

-- The validators of a document that is saved with validation.
abbrev pub password_valid : User → Bool
password_valid u = elim u.password [
  | none ↦ elim u.provider [ local ↦ false | google ↦ true ]
  | some t ↦ leb 6 (utf16_length t)
]

unfoldable pub validates : User → Bool
validates u =
    not (str_eq u.username "")
    && not (str_eq u.fullname "")
    && not (str_eq u.email "")
    && password_valid u

unfoldable pub save_user :
    Outside → (salt : String) → (validate : Bool) → Document → List User → Reply User × List User
unfolding pre_save validates
save_user o salt validate d users =
    if validate && not (validates d.user)
    then (err (failure "User validation failed"), users)
    else (ok (pre_save o salt d), put (pre_save o salt d) users)

abbrev same_google : Option String → User → Bool
same_google none u = false
same_google (some g) u = is_text u.google_id g

-- Another account has one of the unique keys.
abbrev pub clashes : User → User → Bool
clashes u v = str_eq v.username u.username || str_eq v.email u.email || same_google u.google_id v

-- The setters of the schema.
unfoldable pub normalized : Outside → User → User
normalized o u = record u {
  username = o.trim (o.to_lower_case u.username);
  email = o.trim (o.to_lower_case u.email);
  fullname = o.trim u.fullname;
}

abbrev pub inserted :
    Outside → (salt : String) → User → (valid clashing : Bool) → List User → Reply User × List User
inserted o salt u false clashing users = (err (failure "User validation failed"), users)
inserted o salt u true true users = (err duplicate_key, users)
inserted o salt u true false users =
    let stored = pre_save o salt record { user = u; password_modified = true } in
    (ok stored, users ++ (stored ∷ []))

-- `User.create`
unfoldable pub create_user : Outside → (salt : String) → User → List User → Reply User × List User
unfolding pre_save validates normalized
create_user o salt u users =
    let made = normalized o u in
    inserted o salt made (validates made) (any (clashes made) users) users

-- The setters run on a query's value too.
abbrev pub has_email : Outside → Option String → User → Bool
has_email o none u = false
has_email o (some e) u = str_eq u.email (o.trim (o.to_lower_case e))

abbrev pub has_username : Outside → Option String → User → Bool
has_username o none u = false
has_username o (some n) u = str_eq u.username (o.trim (o.to_lower_case n))

unfoldable pub find_user_by_email_or_username :
    Outside → (email username : Option String) → List User → Option User
find_user_by_email_or_username o email username users =
    find_first (λ u. has_username o username u || has_email o email u) users

unfoldable pub find_user_by_email : Outside → String → List User → Option User
find_user_by_email o email users = find_first (has_email o (some email)) users

abbrev pub find_user_by_id : ℕ → List User → Option User
find_user_by_id id users = find_first (λ u. u.id == id) users

-- `expire > now`
abbrev pub expires_after : (now : ℕ) → Option ℕ → Bool
expires_after now none = false
expires_after now (some t) = ltb now t

abbrev pub has_reset : Outside → (token : String) → (now : ℕ) → User → Bool
has_reset o token now u =
    is_text u.forgot_password_token (o.sha256 token) && expires_after now u.forgot_password_expire

unfoldable pub find_user_by_forgot_token :
    Outside → (token : String) → (now : ℕ) → List User → Option User
find_user_by_forgot_token o token now users =
    if str_eq token "" then none else find_first (has_reset o token now) users

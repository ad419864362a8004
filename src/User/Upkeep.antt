-- ===== src/User/Upkeep.antt =====
-- Backend/src/controllers/user.controller.js and googleAuth.controller.js: what each handler stores as a
-- password.
use devops_hackathon.Prelude.{
  ℕ, ◌≡◌, refl, sym, subst, Bool, true, false, Option, none, some, List, ◌||◌, not, ◌==◌, arith,
  inl, inr, Bool-cases, Option-cases, or_default, ltb,
}
use devops_hackathon.Prelude.Texts.{utf16_length}
use devops_hackathon.Store.{Reply, ok, err}
use devops_hackathon.Http.{Failure}
use devops_hackathon.User.{
  User, Outside, loaded, set_password, save_user, find_user_by_id, find_user_by_email,
  find_user_by_forgot_token, find_user_by_email_or_username, generate_forgot_token,
  compare_password, has_email, has_reset,
}
use devops_hackathon.User.Replies.{Settings, Mail, Run, reply, and_mail}
use devops_hackathon.User.Session.{Registration, register_user, falsy}
use devops_hackathon.User.Verification.{verify_user, verify_found, verified_user, same_otp, is_past}
use devops_hackathon.User.Recovery.{
  forgot_password, reset_password, change_password, change_with, change_found, update_profile,
  profile_with, avatar_failure, is_nothing, blank, send_link, reset_found, without_reset,
  ProfileUpdate, with_profile, saved_as, changed_mail,
}
use devops_hackathon.User.Google.{GoogleClient, google_auth}
use devops_hackathon.User.Hashed.{
  IsHash, AllHashed, save_user-hashed, set_password-Savable, found-IsHash, register_new-hashed,
  with_payload-hashed,
}
use devops_hackathon.User.Storing.{All-put}
use Prim.Native.String.{String}
use text.Mathlib.Text.{◌==◌ as str_eq}

module _ (o : Outside) (deliver : Mail → Option String) where
  verify_found-hashed :
      (users : List User) (u : User) (verified refused : Bool)
      → IsHash o u.password
      → AllHashed o users
      → AllHashed o (verify_found o deliver users u verified refused).users
  verify_found-hashed users u true refused h a = a
  verify_found-hashed users u false true h a = a
  verify_found-hashed users u false false h a =
      unfold save_user in (save_user-hashed o "" false (loaded (verified_user u)) users (inr h) a).0

  pub verify_user-hashed :
      (id : ℕ) (otp : Option String) (now : ℕ) (users : List User)
      → AllHashed o users
      → AllHashed o (verify_user o deliver id otp now users).users
  unfolding verify_user
  verify_user-hashed id otp now users a = elim (Option-cases (find_user_by_id id users)) [
    | inl e ↦ rw (verify_user, e) a
    | inr (u, e) ↦
        rw (verify_user, e)
          (verify_found-hashed users u u.is_verified
            (not (same_otp u.otp otp) || is_past now u.otp_expire)
            (found-IsHash o (λ u. u.id == id) users u a e) a)
  ]

  send_link-hashed :
      (s : Settings) (token : String) (now : ℕ) (users : List User) (r : Option User)
      → ((u : User) → r ≡ some u → IsHash o u.password)
      → AllHashed o users
      → AllHashed o (send_link o s deliver token now users r).users
  send_link-hashed s token now users none h a = a
  send_link-hashed s token now users (some u) h a =
      unfold save_user generate_forgot_token in
      (save_user-hashed o "" false (loaded (generate_forgot_token o token now u)) users
        (inr (h u refl)) a).0

  saved_as-hashed :
      (f : Run → Run) (m : String) (x : Reply User × List User)
      → ((r : Run) → (f r).users ≡ r.users)
      → AllHashed o x.1
      → AllHashed o (saved_as f m x).users
  saved_as-hashed f m (err e, users) same a = a
  saved_as-hashed f m (ok u, users) same a = subst (AllHashed o) (sym (same (reply 200 m users))) a

  pub forgot_password-hashed :
      (s : Settings) (email : Option String) (token : String) (now : ℕ) (users : List User)
      → AllHashed o users
      → AllHashed o (forgot_password o s deliver email token now users).users
  unfolding forgot_password
  forgot_password-hashed s email token now users a = elim (Bool-cases (blank o email)) [
    | inl e ↦ rw (forgot_password, e) a
    | inr e ↦
        let key = o.trim (or_default email "") in
        rw (forgot_password, e)
          (send_link-hashed s token now users (find_user_by_email o key users)
            (λ u f. found-IsHash o (has_email o (some key)) users u a f) a)
  ]

  reset_found-hashed :
      (t salt : String) (users : List User) (r : Option User)
      → ((u : User) → r ≡ some u → IsHash o u.password)
      → AllHashed o users
      → AllHashed o (reset_found o deliver t salt users r).users
  reset_found-hashed t salt users none h a = a
  reset_found-hashed t salt users (some u) h a =
      saved_as-hashed (λ r. and_mail deliver (changed_mail u) r)
        "Password reset successfully. You can now sign in with your new password."
        (save_user o salt true (set_password t (loaded (without_reset u))) users) (λ r. refl)
        (save_user-hashed o salt true (set_password t (loaded (without_reset u))) users
          (set_password-Savable o t (without_reset u) (h u refl)) a).0

  by_token-IsHash :
      (token : String) (now : ℕ) (users : List User) (u : User)
      → AllHashed o users
      → find_user_by_forgot_token o token now users ≡ some u
      → IsHash o u.password
  unfolding find_user_by_forgot_token
  by_token-IsHash token now users u a f = elim (Bool-cases (str_eq token "")) [
    | inl e ↦ ground (arith, e, f)
    | inr e ↦ found-IsHash o (has_reset o token now) users u a (rw e at f)
  ]

  pub reset_password-hashed :
      (token : String) (t : Option String) (salt : String) (now : ℕ) (users : List User)
      → AllHashed o users
      → AllHashed o (reset_password o deliver token t salt now users).users
  unfolding reset_password
  reset_password-hashed token t salt now users a = elim (Bool-cases (falsy t)) [
    | inl e ↦ rw (reset_password, e) a
    | inr e ↦ elim (Bool-cases (ltb (utf16_length (or_default t "")) 6)) [
      | inl l ↦ rw (reset_password, e, l) a
      | inr l ↦
          rw (reset_password, e, l)
            (reset_found-hashed (or_default t "") salt users
              (find_user_by_forgot_token o token now users)
              (λ u f. by_token-IsHash token now users u a f) a)
    ]
  ]

module _ (o : Outside) where
  change_found-hashed :
      (t salt : String) (users : List User) (u : User) (correct : Bool)
      → IsHash o u.password
      → AllHashed o users
      → AllHashed o (change_found o t salt users u correct).users
  change_found-hashed t salt users u false h a = a
  change_found-hashed t salt users u true h a =
      saved_as-hashed o (λ m. none) (λ r. r) "Password changed successfully"
        (save_user o salt true (set_password t (loaded u)) users) (λ r. refl)
        (save_user-hashed o salt true (set_password t (loaded u)) users
          (set_password-Savable o t u h) a).0

  change_with-hashed :
      (old : Option String) (t salt : String) (users : List User) (r : Option User)
      → ((u : User) → r ≡ some u → IsHash o u.password)
      → AllHashed o users
      → AllHashed o (change_with o old t salt users r).users
  change_with-hashed old t salt users none h a = a
  change_with-hashed old t salt users (some u) h a =
      change_found-hashed t salt users u (compare_password o u old) (h u refl) a

  pub change_password-hashed :
      (caller : ℕ) (old t : Option String) (salt : String) (users : List User)
      → AllHashed o users
      → AllHashed o (change_password o caller old t salt users).users
  unfolding change_password
  change_password-hashed caller old t salt users a = elim (Bool-cases (falsy old || falsy t)) [
    | inl e ↦ rw (change_password, e) a
    | inr e ↦
        rw (change_password, e)
          (change_with-hashed old (or_default t "") salt users (find_user_by_id caller users)
            (λ u f. found-IsHash o (λ u. u.id == caller) users u a f) a)
  ]

  profile_with-hashed :
      (e : Option Failure) (nothing : Bool) (r : Option User) (b : ProfileUpdate)
      (users : List User)
      → ((u : User) → r ≡ some u → IsHash o u.password)
      → AllHashed o users
      → AllHashed o (profile_with e nothing r b users).users
  profile_with-hashed (some e) nothing r b users h a = a
  profile_with-hashed none true r b users h a = a
  profile_with-hashed none false none b users h a = a
  profile_with-hashed none false (some u) b users h a =
      All-put (λ u. IsHash o u.password) (with_profile b u) users (h u refl) a

  pub update_profile-hashed :
      (caller : ℕ) (b : ProfileUpdate) (users : List User)
      → AllHashed o users
      → AllHashed o (update_profile caller b users).users
  unfolding update_profile
  update_profile-hashed caller b users a =
      profile_with-hashed (avatar_failure b.avatar) (is_nothing b) (find_user_by_id caller users) b
        users (λ u f. found-IsHash o (λ u. u.id == caller) users u a f) a

  pub google_auth-hashed :
      (s : Settings) (g : GoogleClient) (credential : Option String) (id now : ℕ)
      (users : List User)
      → AllHashed o users
      → AllHashed o (google_auth o s g credential id now users).users
  unfolding google_auth
  google_auth-hashed s g credential id now users a =
      elim (Bool-cases (str_eq s.google_client_id "")) [
        | inl e ↦ rw (google_auth, e) a
        | inr e ↦ elim (Bool-cases (falsy credential)) [
          | inl f ↦ rw (google_auth, e, f) a
          | inr f ↦
              rw (google_auth, e, f)
                (with_payload-hashed o s g
                  (g.verify_id_token (or_default credential "") s.google_client_id) id now users a)
        ]
      ]

  pub register_user-hashed :
      (s : Settings) (b : Registration) (salt : String) (id now : ℕ) (users : List User)
      → AllHashed o users
      → AllHashed o (register_user o s b salt id now users).users
  unfolding register_user
  register_user-hashed s b salt id now users a =
      register_new-hashed o s b salt id now users b.username
        (find_user_by_email_or_username o b.email b.username users) a

-- ===== src/User/Restored.antt =====
-- Backend/src/controllers/user.controller.js: the way from a forgotten password back to a session.
use devops_hackathon.Prelude.{
  ℕ, ◌≡◌, ◌+◌, ◌*◌, ◌<◌, refl, ap, ◌∙◌, Bool, true, false, Option, none, some, List, ltb, arith,
  inl, inr, Option-cases,
}
use devops_hackathon.Prelude.Texts.{utf16_length}
use devops_hackathon.User.{
  User, Outside, loaded, find_first, put, has_reset, has_email, is_text, find_user_by_email,
  find_user_by_forgot_token, generate_forgot_token, compare_password, compare_hash, validates,
  pre_save,
}
use devops_hackathon.User.Replies.{Settings, Mail, signed_in}
use devops_hackathon.User.Session.{login_user, login_as, login_found, falsy}
use devops_hackathon.User.Recovery.{forgot_password, reset_password, blank, send_link}
use devops_hackathon.User.Storing.{find_first-true, find_first-put, find_first-Only}
use Prim.Native.String.{String}
use text.Mathlib.Text.{◌==◌ as str_eq}
use text.Mathlib.TextPositions.{eq_refl}
use devops_hackathon.User.Recovered.{
  HasOneOwner, reset_user, long_enough-present, reset_user-fields, reset_user-password,
}
use devops_hackathon.User.Links.{reset_password_users, owner-Only}

-- What the handlers rely on of bcrypt: a hash is not empty, and accepts the text that it was made of.
abbrev pub Accepts : Outside → Type 0
Accepts o =
    (salt t : String) → (str_eq (o.hash salt t) "" ≡ false) × (o.compare t (o.hash salt t) ≡ true)

pub pre_save-loaded : (o : Outside) (salt : String) (u : User) → pre_save o salt (loaded u) ≡ u
unfolding pre_save
pre_save-loaded o salt u = elim (Option-cases u.password) [
  | inl e ↦ simp e refl
  | inr (h, e) ↦ simp e refl
]

forgot_password_users :
    (o : Outside) (s : Settings) (deliver : Mail → Option String) (e token : String) (now : ℕ)
    (users : List User) (u : User)
    → blank o (some e) ≡ false
    → find_user_by_email o (o.trim e) users ≡ some u
    → (forgot_password o s deliver (some e) token now users).users
      ≡ put (generate_forgot_token o token now u) users
unfolding forgot_password
forgot_password_users o s deliver e token now users u b f = rw b (
    ap (λ r. (send_link o s deliver token now users r).users) f
    ∙ ap (λ v. put v users) (pre_save-loaded o "" (generate_forgot_token o token now u)))

link_works :
    (o : Outside) (token : String) (now at : ℕ) (q : User → Bool) (users : List User) (u : User)
    → find_first q users ≡ some u
    → HasOneOwner o token u.id users
    → str_eq token "" ≡ false
    → at < now + 15 * (60 * 1000)
    → find_user_by_forgot_token o token at (put (generate_forgot_token o token now u) users)
      ≡ some (generate_forgot_token o token now u)
unfolding find_user_by_forgot_token generate_forgot_token
link_works o token now at q users u f only n h = rw n (
    find_first-Only (has_reset o token at) q u (generate_forgot_token o token now u) users f
      (owner-Only o token at u.id users only) (ground (arith, eq_refl (o.sha256 token))) refl)

pub login_accepted :
    (o : Outside) (s : Settings) (e t : String) (users : List User) (w : User)
    → str_eq e "" ≡ false
    → find_user_by_email o e users ≡ some w
    → compare_password o w (some t) ≡ true
    → w.is_verified ≡ true
    → login_user o s record { email = some e; username = none; password = some t } users
      ≡ signed_in o s 200 "User logged in successfully" w users
unfolding login_user find_user_by_email
login_accepted o s e t users w n f c v = rw n (
    ap (login_found o s (some t) users) f
    ∙ (ap (λ b. login_as o s w b w.is_verified users) c ∙ ap (λ b. login_as o s w true b users) v))

compare_password_new :
    (o : Outside) (salt t : String) (w : User)
    → Accepts o
    → falsy (some t) ≡ false
    → w.password ≡ some (o.hash salt t)
    → compare_password o w (some t) ≡ true
unfolding compare_password
compare_password_new o salt t w law n p =
    ap (λ h. compare_hash o h (some t)) p ∙ rw ((law salt t).0, n) (law salt t).1

-- What stays of an account that is given a token.
token-fields :
    (o : Outside) (token : String) (now : ℕ) (u : User)
    → ((generate_forgot_token o token now u).id ≡ u.id)
      × ((generate_forgot_token o token now u).email ≡ u.email)
      × ((generate_forgot_token o token now u).is_verified ≡ u.is_verified)
      × ((generate_forgot_token o token now u).password ≡ u.password)
      × (validates (generate_forgot_token o token now u) ≡ validates u)
unfolding generate_forgot_token validates
token-fields o token now u = (refl, refl, refl, refl, refl)

pub put_found :
    (o : Outside) (e : String) (users : List User) (u w : User)
    → find_user_by_email o e users ≡ some u
    → w.id ≡ u.id
    → w.email ≡ u.email
    → find_user_by_email o e (put w users) ≡ some w
unfolding find_user_by_email
put_found o e users u w f i m =
    let there = find_first-true (has_email o (some e)) users u f in
    find_first-put (has_email o (some e)) u w users f (rw m there) i

pub found_by_email :
    (o : Outside) (e : String) (users : List User) (u : User)
    → find_user_by_email o e users ≡ some u
    → find_first (has_email o (some e)) users ≡ some u
unfolding find_user_by_email
found_by_email o e users u f = f

-- Hashes that are not empty and accept the text that they were made of. The owner of a valid, verified
-- account, whose token no other account has, asks for a link, follows it before 15 minutes are
-- over, and sets a password of six characters or more that is not the stored hash itself: the login
-- with the address and that password succeeds, whatever becomes of the mails.
pub reset_password-login_user :
    (o : Outside) (s : Settings) (deliver : Mail → Option String) (e token t salt : String)
    (now at : ℕ) (users : List User) (u : User)
    → Accepts o
    → blank o (some e) ≡ false
    → find_user_by_email o (o.trim e) users ≡ some u
    → HasOneOwner o token u.id users
    → str_eq token "" ≡ false
    → validates u ≡ true
    → u.is_verified ≡ true
    → at < now + 15 * (60 * 1000)
    → ltb (utf16_length t) 6 ≡ false
    → is_text u.password t ≡ false
    → (let users1 = (forgot_password o s deliver (some e) token now users).users in
        let users2 = (reset_password o deliver token (some t) salt at users1).users in
        let w = reset_user o salt t (generate_forgot_token o token now u) in
        login_user o s record { email = some (o.trim e); username = none; password = some t } users2
        ≡ signed_in o s 200 "User logged in successfully" w users2)
reset_password-login_user o s deliver e token t salt now at users u law b f only n v ver h l d =
    let u1 = generate_forgot_token o token now u in
    let w = reset_user o salt t u1 in
    let users1 = put u1 users in
    let kept = token-fields o token now u in
    let by_email : User → Bool = has_email o (some (o.trim e)) in
    let there = found_by_email o (o.trim e) users u f in
    let link = link_works o token now at by_email users u there only n h in
    let stored = reset_password_users o deliver token t salt at users1 u1 link (kept.4 ∙ v) l in
    let fields = reset_user-fields o salt t u1 in
    let found1 = put_found o (o.trim e) users u u1 f kept.0 kept.1 in
    rw (forgot_password_users o s deliver e token now users u b f, stored)
      (login_accepted o s (o.trim e) t (put w users1) w (ground (arith, b))
        (put_found o (o.trim e) users1 u1 w found1 fields.1 fields.2)
        (compare_password_new o salt t w law (long_enough-present t l)
          (reset_user-password o salt t u1 (ap (λ p. is_text p t) kept.3 ∙ d)))
        (fields.3 ∙ kept.2 ∙ ver))

-- ===== src/User/Links.antt =====
-- Backend/src/controllers/user.controller.js: how often, for how long and for what a mailed link works.
use devops_hackathon.Prelude.{
  ℕ, ◌≡◌, refl, ap, sym, subst, ◌∙◌, true, false, Option, none, some, List, ltb, inl, inr,
  Bool-cases, or_default,
}
use devops_hackathon.Http.{Failure, api_error, plain}
use devops_hackathon.User.Session.{falsy}
use devops_hackathon.Prelude.Texts.{utf16_length}
use devops_hackathon.User.{
  User, Outside, put, has_reset, is_text, find_user_by_forgot_token, validates,
}
use devops_hackathon.User.Replies.{Mail, Run, stop}
use devops_hackathon.User.Recovery.{reset_password, reset_found, invalid_link}
use devops_hackathon.User.Storing.{Only, Only-weaken, find_first_gone}
use Prim.Native.String.{String}
use text.Mathlib.Text.{◌==◌ as str_eq}
use devops_hackathon.User.Recovered.{
  HasOneOwner, reset_user, reset_password_runs, reset_found_users, long_enough-present,
  set_password-validates, reset_user-fields, reset_user-password,
}

pub reset_password_users :
    (o : Outside) (deliver : Mail → Option String) (token t salt : String) (now : ℕ)
    (users : List User) (u : User)
    → find_user_by_forgot_token o token now users ≡ some u
    → validates u ≡ true
    → ltb (utf16_length t) 6 ≡ false
    → (reset_password o deliver token (some t) salt now users).users
      ≡ put (reset_user o salt t u) users
reset_password_users o deliver token t salt now users u f v l =
    ap (λ (r : Run). r.users)
      (reset_password_runs o deliver token t salt now users (some u) l (long_enough-present t l) f)
    ∙ reset_found_users o deliver t salt users u (set_password-validates o salt t u v l)

pub owner-Only :
    (o : Outside) (token : String) (later id : ℕ) (users : List User)
    → HasOneOwner o token id users
    → Only (has_reset o token later) id users
owner-Only o token later id users only =
    Only-weaken (λ v. is_text v.forgot_password_token (o.sha256 token)) (has_reset o token later) id
      users (λ v e. rw e refl) only

-- A consumed link is nobody's.
token_gone :
    (o : Outside) (token : String) (later : ℕ) (w : User) (users : List User)
    → HasOneOwner o token w.id users
    → w.forgot_password_token ≡ none
    → find_user_by_forgot_token o token later (put w users) ≡ none
unfolding find_user_by_forgot_token
token_gone o token later w users only n = elim (Bool-cases (str_eq token "")) [
  | inl e ↦ rw e refl
  | inr e ↦ rw e (
      find_first_gone (has_reset o token later) w users (owner-Only o token later w.id users only)
        (rw n refl))
]

-- With an unknown link, no password is set.
refused_without_owner :
    (o : Outside) (deliver : Mail → Option String) (token salt : String) (x : Option String)
    (now : ℕ) (users : List User)
    → find_user_by_forgot_token o token now users ≡ none
    → (e : Failure) × (reset_password o deliver token x salt now users ≡ stop e users)
unfolding reset_password
refused_without_owner o deliver token salt x now users n = elim (Bool-cases (falsy x)) [
  | inl e ↦ (api_error 400 (plain "New password is required"), rw e refl)
  | inr e ↦ elim (Bool-cases (ltb (utf16_length (or_default x "")) 6)) [
    | inl l ↦ (api_error 400 (plain "New password must be at least 6 characters"), rw (e, l) refl)
    | inr l ↦ (invalid_link, rw (e, l) (ap (reset_found o deliver (or_default x "") salt users) n))
  ]
]

-- A link that belongs to one account at most, and finds it, a valid account, with a new password of six
-- characters or more that is not the stored hash itself: the account is stored with the hash of that
-- password. The same link is then refused at any time, whatever password comes with it or none, and
-- changes no account.
pub reset_password_once :
    (o : Outside) (deliver : Mail → Option String) (token t salt salt2 : String) (x : Option String)
    (now later : ℕ) (users : List User) (u : User)
    → HasOneOwner o token u.id users
    → find_user_by_forgot_token o token now users ≡ some u
    → validates u ≡ true
    → ltb (utf16_length t) 6 ≡ false
    → is_text u.password t ≡ false
    → let users1 = (reset_password o deliver token (some t) salt now users).users in
      (w : User) × (e : Failure) × (users1 ≡ put w users)
      × (w.id ≡ u.id)
      × (w.email ≡ u.email)
      × (w.password ≡ some (o.hash salt t))
      × (reset_password o deliver token x salt2 later users1 ≡ stop e (put w users))
reset_password_once o deliver token t salt salt2 x now later users u only f v l d =
    let w = reset_user o salt t u in
    let fields = reset_user-fields o salt t u in
    let stored = reset_password_users o deliver token t salt now users u f v l in
    let (e, refused) = refused_without_owner o deliver token salt2 x later (put w users) (
      token_gone o token later w users
        (subst (λ id. HasOneOwner o token id users) (sym fields.1) only) fields.0) in
    (
      w,
      e,
      stored,
      fields.1,
      fields.2,
      reset_user-password o salt t u d,
      ap (reset_password o deliver token x salt2 later) stored ∙ refused,
    )

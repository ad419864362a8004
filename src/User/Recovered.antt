-- ===== src/User/Recovered.antt =====
-- Backend/src/controllers/user.controller.js: the reset of a password by the mailed link.
use devops_hackathon.Prelude.{
  ℕ, ◌≡◌, refl, ap, sym, subst, ◌∙◌, true, false, Option, none, some, List, ltb, arith, inl, inr,
  Bool-cases, Option-cases, or_default,
}
use devops_hackathon.Prelude.Texts.{utf16_length}
use devops_hackathon.Store.{ok}
use devops_hackathon.Http.{Outcome, ◌>>=◌}
use devops_hackathon.User.{
  User, Outside, Document, loaded, put, is_text, find_user_by_email, find_user_by_forgot_token,
  save_user, set_password, validates, pre_save,
}
use devops_hackathon.User.Replies.{Settings, Mail, send_notification_email}
use devops_hackathon.User.Session.{falsy}
use devops_hackathon.User.Recovery.{
  forgot_password, reset_password, blank, without_reset, link_sent, send_link, link_mail,
  reset_found,
}
use devops_hackathon.User.Storing.{Only}
use Prim.Native.String.{String}
use text.Mathlib.Text.{◌==◌ as str_eq}
use text.Mathlib.TextEquality.{eq_iff}

pub sent_returned :
    {A : Type 0} (e : Option String) (r : Outcome A) → (send_notification_email e >>= λ _. r) ≡ r
unfolding send_notification_email
sent_returned none r = refl
sent_returned (some e) r = refl

send_link_reply :
    (o : Outside) (s : Settings) (deliver : Mail → Option String) (token : String) (now : ℕ)
    (users : List User) (r : Option User)
    → (send_link o s deliver token now users r).result ≡ (link_sent users).result
send_link_reply o s deliver token now users none = refl
send_link_reply o s deliver token now users (some u) =
    unfold save_user in sent_returned (deliver (link_mail s token u)) (link_sent users).result

forgot_password_reply :
    (o : Outside) (s : Settings) (deliver : Mail → Option String) (email : Option String)
    (token : String) (now : ℕ) (users : List User)
    → blank o email ≡ false
    → (forgot_password o s deliver email token now users).result ≡ (link_sent users).result
unfolding forgot_password
forgot_password_reply o s deliver email token now users b = rw b (
    send_link_reply o s deliver token now users
      (find_user_by_email o (o.trim (or_default email "")) users))

-- The answer to a request for a reset link is the same whatever accounts there are, whatever the mail
-- server does, and whatever token is drawn.
pub forgot_password-blind :
    (o : Outside) (s : Settings) (email : Option String) (now : ℕ)
    (deliver deliver2 : Mail → Option String) (token token2 : String) (users users2 : List User)
    → (forgot_password o s deliver email token now users).result
      ≡ (forgot_password o s deliver2 email token2 now users2).result
unfolding forgot_password
forgot_password-blind o s email now deliver deliver2 token token2 users users2 =
    elim (Bool-cases (blank o email)) [
      | inl e ↦ rw (forgot_password, e) refl
      | inr e ↦
          forgot_password_reply o s deliver email token now users e
          ∙ sym (forgot_password_reply o s deliver2 email token2 now users2 e)
    ]

-- The link of the token is that of one account at most.
abbrev pub HasOneOwner : Outside → (token : String) → (id : ℕ) → List User → Type 0
HasOneOwner o token id users = Only (λ v. is_text v.forgot_password_token (o.sha256 token)) id users

-- The account after a reset.
abbrev pub reset_user : Outside → (salt new_password : String) → User → User
reset_user o salt new_password u =
    pre_save o salt (set_password new_password (loaded (without_reset u)))

pub reset_password_runs :
    (o : Outside) (deliver : Mail → Option String) (token new_password salt : String) (now : ℕ)
    (users : List User) (r : Option User)
    → ltb (utf16_length new_password) 6 ≡ false
    → falsy (some new_password) ≡ false
    → find_user_by_forgot_token o token now users ≡ r
    → reset_password o deliver token (some new_password) salt now users
      ≡ reset_found o deliver new_password salt users r
unfolding reset_password
reset_password_runs o deliver token new_password salt now users r l n f =
    rw (n, l) (ap (reset_found o deliver new_password salt users) f)

save_user_valid :
    (o : Outside) (salt : String) (d : Document) (users : List User)
    → validates d.user ≡ true
    → save_user o salt true d users ≡ (ok (pre_save o salt d), put (pre_save o salt d) users)
unfolding save_user
save_user_valid o salt d users v = rw v refl

pub reset_found_users :
    (o : Outside) (deliver : Mail → Option String) (new_password salt : String) (users : List User)
    (u : User)
    → validates (set_password new_password (loaded (without_reset u))).user ≡ true
    → (reset_found o deliver new_password salt users (some u)).users
      ≡ put (reset_user o salt new_password u) users
reset_found_users o deliver new_password salt users u v =
    simp (save_user_valid o salt (set_password new_password (loaded (without_reset u))) users v)
      refl

pub long_enough-present : (t : String) → ltb (utf16_length t) 6 ≡ false → falsy (some t) ≡ false
long_enough-present t h = elim (Bool-cases (str_eq t "")) [
  | inl e ↦
      let short : ltb (utf16_length "") 6 ≡ false =
        subst (λ x. ltb (utf16_length x) 6 ≡ false) ((eq_iff t "").0 e) h in
      ground (arith, short)
  | inr e ↦ e
]

module _ (o : Outside) (salt t : String) (u : User) where
  pub set_password-validates :
      validates u ≡ true
      → ltb (utf16_length t) 6 ≡ false
      → validates (set_password t (loaded (without_reset u))).user ≡ true
  unfolding validates set_password
  set_password-validates v l = elim (Bool-cases (is_text u.password t)) [
    | inl e ↦ rw e v
    | inr e ↦ rw e (ground (arith, v, l))
  ]

  -- What a reset leaves of the account, and what it takes away.
  pub reset_user-fields :
      ((reset_user o salt t u).forgot_password_token ≡ none)
      × ((reset_user o salt t u).id ≡ u.id)
      × ((reset_user o salt t u).email ≡ u.email)
      × ((reset_user o salt t u).is_verified ≡ u.is_verified)
  unfolding pre_save set_password
  reset_user-fields = elim (Bool-cases (is_text u.password t)) [
    | inl e ↦ elim (Option-cases u.password) [
      | inl n ↦ rw (e, n) (refl, refl, refl, refl)
      | inr (h, n) ↦ rw (e, n) (refl, refl, refl, refl)
    ]
    | inr e ↦ rw e (refl, refl, refl, refl)
  ]

  pub reset_user-password :
      is_text u.password t ≡ false → (reset_user o salt t u).password ≡ some (o.hash salt t)
  unfolding pre_save set_password
  reset_user-password e = rw e refl

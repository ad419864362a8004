-- ===== src/User/Hashed.antt =====
-- Backend/src/models/user.model.js and controllers/user.controller.js: what is stored as a password.
use devops_hackathon.Prelude.{
  ℕ, ◌≡◌, refl, subst, Bool, true, false, Option, none, some, List, [], ◌∷◌, ◌&&◌, ◌||◌, not, arith,
  All, All-append, inl, inr, Bool-cases, Option-cases, ◌⊎◌, or_default,
}
use devops_hackathon.Prelude.Texts.{any}
use devops_hackathon.Store.{Reply, ok, err}
use devops_hackathon.User.{
  User, Outside, Document, loaded, find_first, is_text, set_password, pre_save, save_user,
  create_user, inserted, normalized, validates, find_user_by_id, clashes,
}
use devops_hackathon.User.Replies.{Settings}
use devops_hackathon.User.Session.{
  Registration, after_register, after_save, register_new, verify_at_once, falsy, new_user,
}
use devops_hackathon.User.Google.{
  GoogleClient, Payload, with_payload, payload_found, match_google, linked, welcomed, created_by,
  by_google, by_email, valid_issuer, is_true,
}
use devops_hackathon.User.Storing.{All-find_first, All-put}
use Prim.Native.String.{String}
use text.Mathlib.Text.{◌==◌ as str_eq}

-- No password, or the hash of a text with a salt.
abbrev pub IsHash : Outside → Option String → Type 0
IsHash o none = Unit
IsHash o (some h) = (salt : String) × (t : String) × (h ≡ o.hash salt t)

abbrev pub AllHashed : Outside → List User → Type 0
AllHashed o users = All (λ u. IsHash o u.password) users

abbrev pub ReplyHashed : Outside → Reply User → Type 0
ReplyHashed o (ok u) = IsHash o u.password
ReplyHashed o (err e) = Unit

-- A document whose save stores a hash.
abbrev pub Savable : Outside → Document → Type 0
Savable o d = (d.password_modified ≡ true) ⊎ IsHash o d.user.password

pre_save-IsHash :
    (o : Outside) (salt : String) (d : Document)
    → Savable o d
    → IsHash o (pre_save o salt d).password
unfolding pre_save
pre_save-IsHash o salt d h = elim (Option-cases d.user.password) [
  | inl e ↦ rw e tt
  | inr (t, e) ↦ elim (Bool-cases d.password_modified) [
    | inl m ↦ rw (e, m) (salt, t, refl)
    | inr m ↦ elim h [ inl n ↦ ground (arith, m, n) | inr k ↦ rw (e, m) (subst (IsHash o) e k) ]
  ]
]

pub save_user-hashed :
    (o : Outside) (salt : String) (validate : Bool) (d : Document) (users : List User)
    → Savable o d
    → AllHashed o users
    → AllHashed o (save_user o salt validate d users).1
      × ReplyHashed o (save_user o salt validate d users).0
unfolding save_user
save_user-hashed o salt validate d users h a =
    elim (Bool-cases (validate && not (validates d.user))) [
      | inl e ↦ rw e (a, tt)
      | inr e ↦
          let k = pre_save-IsHash o salt d h in
          rw e (All-put (λ u. IsHash o u.password) (pre_save o salt d) users k a, k)
    ]

pub set_password-Savable :
    (o : Outside) (t : String) (u : User)
    → IsHash o u.password
    → Savable o (set_password t (loaded u))
unfolding set_password
set_password-Savable o t u h = elim (Bool-cases (is_text u.password t)) [
  | inl e ↦ rw e (inr h)
  | inr e ↦ rw e (inl refl)
]

inserted-hashed :
    (o : Outside) (salt : String) (u : User) (valid clashing : Bool) (users : List User)
    → AllHashed o users
    → AllHashed o (inserted o salt u valid clashing users).1
      × ReplyHashed o (inserted o salt u valid clashing users).0
inserted-hashed o salt u false clashing users a = (a, tt)
inserted-hashed o salt u true true users a = (a, tt)
inserted-hashed o salt u true false users a =
    let d : Document = record { user = u; password_modified = true } in
    let k = pre_save-IsHash o salt d (inl refl) in
    (All-append (λ u. IsHash o u.password) users (pre_save o salt d ∷ []) a (k, tt), k)

create_user-hashed :
    (o : Outside) (salt : String) (u : User) (users : List User)
    → AllHashed o users
    → AllHashed o (create_user o salt u users).1 × ReplyHashed o (create_user o salt u users).0
unfolding create_user
create_user-hashed o salt u users a =
    let made = normalized o u in
    inserted-hashed o salt made (validates made) (any (clashes made) users) users a

-- A document of the collection.
pub found-IsHash :
    (o : Outside) (p : User → Bool) (users : List User) (u : User)
    → AllHashed o users
    → find_first p users ≡ some u
    → IsHash o u.password
found-IsHash o p users u a f = All-find_first (λ u. IsHash o u.password) p users u a f

linked-IsHash :
    (o : Outside) (p : Payload) (u : User) → IsHash o u.password → IsHash o (linked p u).password
unfolding linked
linked-IsHash o p u h = h

module _ (o : Outside) (s : Settings) where
  after_save-hashed :
      (u : User) (x : Reply User × List User)
      → AllHashed o x.1
      → AllHashed o (after_save o s u x).users
  after_save-hashed u (err e, users) a = a
  after_save-hashed u (ok saved, users) a = elim (Option-cases (find_user_by_id u.id users)) [
    | inl e ↦ rw (after_save, e) a
    | inr (v, e) ↦ rw (after_save, e) a
  ]

  verify_at_once-hashed :
      (u : User) (b : Bool) (users : List User)
      → IsHash o u.password
      → AllHashed o users
      → AllHashed o (verify_at_once o u b users).1
  verify_at_once-hashed u false users h a = a
  verify_at_once-hashed u true users h a =
      (save_user-hashed o "" true (loaded (record u { is_verified = true })) users (inr h) a).0

  after_register-hashed :
      (x : Reply User × List User)
      → AllHashed o x.1
      → ReplyHashed o x.0
      → AllHashed o (after_register o s x).users
  after_register-hashed (err e, users) a h = a
  after_register-hashed (ok u, users) a h =
      after_save-hashed u (verify_at_once o u s.auto_verify_users users)
        (verify_at_once-hashed u s.auto_verify_users users h a)

  pub register_new-hashed :
      (b : Registration) (salt : String) (id now : ℕ) (users : List User) (name : Option String)
      (existed : Option User)
      → AllHashed o users
      → AllHashed o (register_new o s b salt id now users name existed).users
  register_new-hashed b salt id now users name (some u) a = a
  register_new-hashed b salt id now users none none a = a
  register_new-hashed b salt id now users (some name) none a =
      let made = new_user id now (o.to_lower_case name) b in
      let k = create_user-hashed o salt made users a in
      after_register-hashed (create_user o salt made users) k.0 k.1

  welcomed-hashed :
      (x : Reply User × List User) → AllHashed o x.1 → AllHashed o (welcomed o s x).users
  welcomed-hashed (err e, users) a = a
  welcomed-hashed (ok u, users) a = a

  match_google-hashed :
      (g : GoogleClient) (p : Payload) (email : String) (id now : ℕ) (users : List User)
      (by_google by_email : Option User)
      → AllHashed o users
      → ((u : User) → by_email ≡ some u → IsHash o u.password)
      → AllHashed o (match_google o s g p email id now users by_google by_email).users
  match_google-hashed g p email id now users (some u) by_email a h = a
  match_google-hashed g p email id now users none none a h =
      let made = created_by o g p email id now users in
      welcomed-hashed (create_user o "" made users) (create_user-hashed o "" made users a).0
  match_google-hashed g p email id now users none (some u) a h =
      welcomed-hashed (save_user o "" false (loaded (linked p u)) users)
        (save_user-hashed o "" false (loaded (linked p u)) users
          (inr (linked-IsHash o p u (h u refl))) a).0

  payload_found-hashed :
      (g : GoogleClient) (p : Payload) (issued unverified : Bool) (id now : ℕ) (users : List User)
      → AllHashed o users
      → AllHashed o (payload_found o s g p issued unverified id now users).users
  payload_found-hashed g p false unverified id now users a = a
  payload_found-hashed g p true true id now users a = a
  payload_found-hashed g p true false id now users a =
      let email = o.to_lower_case (or_default p.email "") in
      match_google-hashed g p email id now users (by_google p users) (by_email o email users) a
        (λ u f. found-IsHash o (λ u. str_eq u.email (o.trim (o.to_lower_case email))) users u a f)

  pub with_payload-hashed :
      (g : GoogleClient) (r : Option (Option Payload)) (id now : ℕ) (users : List User)
      → AllHashed o users
      → AllHashed o (with_payload o s g r id now users).users
  with_payload-hashed g none id now users a = a
  with_payload-hashed g (some none) id now users a = a
  with_payload-hashed g (some (some p)) id now users a =
      payload_found-hashed g p (valid_issuer p.iss)
        (falsy p.email || not (is_true p.email_verified)) id now users a

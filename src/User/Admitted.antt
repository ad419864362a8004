-- ===== src/User/Admitted.antt =====
-- Backend/src/controllers/user.controller.js and googleAuth.controller.js: who is let in.
use devops_hackathon.Prelude.{
  ℕ, ◌≡◌, refl, ap, sym, ◌∙◌, Bool, true, false, Option, none, some, List, ◌&&◌, ◌||◌, ◌==◌, not,
  arith, ◌⊎◌, All, inl, inr, Bool-cases, or_default,
}
use devops_hackathon.Http.{returned, thrown, returned_injective, api_error, plain}
use devops_hackathon.User.{
  User, Claims, has_email, has_username, claims_of, Outside, put, save_user, find_user_by_id,
  find_user_by_email, find_user_by_email_or_username, generate_access_token, compare_password,
}
use devops_hackathon.User.Replies.{
  Settings, Mail, Response, signed_in, reply, cookie_set, without_password,
}
use devops_hackathon.User.Session.{
  verify_jwt, token_claims, Login, login_user, login_found, login_as, falsy,
}
use devops_hackathon.User.Verification.{
  verify_user, verify_with, verify_found, verified_user, is_past, same_otp,
}
use devops_hackathon.User.Google.{
  GoogleClient, Payload, google_auth, linked, by_google, by_email, valid_issuer, is_true,
  with_payload, payload_found, match_google,
}
use devops_hackathon.User.Storing.{All-find_first, find_first-put, find_first-true}
use devops_hackathon.User.Recovered.{sent_returned}
use devops_hackathon.User.Restored.{pre_save-loaded, put_found, found_by_email, login_accepted}
use Prim.Native.String.{String}
use text.Mathlib.Text.{◌==◌ as str_eq}

-- What a login that succeeds has checked, and what it gives.
abbrev pub IsAdmitted : Outside → Settings → Option String → User → Response → Type 0
IsAdmitted o s password u r =
    (compare_password o u password ≡ true)
    × (u.is_verified ≡ true)
    × (r.token ≡ some (generate_access_token o u))
    × (r.cookie ≡ cookie_set (generate_access_token o u) s.production)
    × (r.user ≡ some (without_password u))

login_as-returned :
    (o : Outside) (s : Settings) (u : User) (c v : Bool) (users : List User) (r : Response)
    → (login_as o s u c v users).result ≡ returned r
    → (c ≡ true)
      × (v ≡ true)
      × (r.token ≡ some (generate_access_token o u))
      × (r.cookie ≡ cookie_set (generate_access_token o u) s.production)
      × (r.user ≡ some (without_password u))
login_as-returned o s u false v users r h = ground arith
login_as-returned o s u true false users r h = ground arith
login_as-returned o s u true true users r h =
    let same = sym (returned_injective _ r h) in
    (
      refl,
      refl,
      ap (λ (r : Response). r.token) same,
      ap (λ (r : Response). r.cookie) same,
      ap (λ (r : Response). r.user) same,
    )

login_found-returned :
    (o : Outside) (s : Settings) (password : Option String) (users : List User) (f : Option User)
    (r : Response)
    → (login_found o s password users f).result ≡ returned r
    → (u : User) × (f ≡ some u) × IsAdmitted o s password u r
login_found-returned o s password users none r h = ground arith
login_found-returned o s password users (some u) r h =
    (u, refl, login_as-returned o s u (compare_password o u password) u.is_verified users r h)

-- A login that succeeds found an account by the address or the name, whose stored hash accepts the
-- password and which is verified; its token and cookie are those of that account, and the user in the
-- response carries no password.
pub login_user-IsAdmitted :
    (o : Outside) (s : Settings) (b : Login) (users : List User) (r : Response)
    → (login_user o s b users).result ≡ returned r
    → (u : User) × (find_user_by_email_or_username o b.email b.username users ≡ some u)
      × IsAdmitted o s b.password u r
unfolding login_user
login_user-IsAdmitted o s b users r h = elim (Bool-cases (falsy b.username && falsy b.email)) [
  | inl e ↦ let k = rw (login_user, e) at h in ground arith
  | inr e ↦
      login_found-returned o s b.password users
        (find_user_by_email_or_username o b.email b.username users) r (rw (login_user, e) at h)
]

-- The token of the claims is not empty and is read as what was signed.
abbrev pub IsSigned : Outside → (String → Claims ⊎ Option String) → Claims → Type 0
IsSigned o jwt c = (str_eq (o.sign c) "" ≡ false) × (jwt (o.sign c) ≡ inl c)

found-IsSigned :
    (o : Outside) (jwt : String → Claims ⊎ Option String) (b : Login) (users : List User) (u : User)
    → All (λ u. IsSigned o jwt (claims_of u)) users
    → find_user_by_email_or_username o b.email b.username users ≡ some u
    → IsSigned o jwt (claims_of u)
unfolding find_user_by_email_or_username
found-IsSigned o jwt b users u signed f =
    All-find_first (λ u. IsSigned o jwt (claims_of u))
      (λ u. has_username o b.username u || has_email o b.email u) users u signed f

accepted_token :
    (o : Outside) (jwt : String → Claims ⊎ Option String) (u : User) (token : Option String)
    → IsSigned o jwt (claims_of u)
    → token ≡ some (generate_access_token o u)
    → verify_jwt jwt token ≡ returned (claims_of u)
unfolding verify_jwt generate_access_token
accepted_token o jwt u token signed e =
    ap (verify_jwt jwt) e ∙ rw signed.0 (ap token_claims signed.1)

-- Tokens of the accounts that are not empty and are read as what was signed. A login that succeeds found an account by
-- the address or the name, whose stored hash accepts the password and which is verified; the cookie
-- and the token are those of that account, the user in the response carries no password, and
-- `verifyJWT` takes the token for that account's.
pub login_user-verify_jwt :
    (o : Outside) (s : Settings) (jwt : String → Claims ⊎ Option String) (b : Login)
    (users : List User) (r : Response)
    → All (λ u. IsSigned o jwt (claims_of u)) users
    → (login_user o s b users).result ≡ returned r
    → (u : User) × (find_user_by_email_or_username o b.email b.username users ≡ some u)
      × IsAdmitted o s b.password u r
      × (verify_jwt jwt r.token ≡ returned (claims_of u))
login_user-verify_jwt o s jwt b users r signed h =
    let (u, f, admitted) = login_user-IsAdmitted o s b users r h in
    (
      u,
      f,
      admitted,
      accepted_token o jwt u r.token (found-IsSigned o jwt b users u signed f) admitted.2,
    )

verify_found_users :
    (o : Outside) (deliver : Mail → Option String) (users : List User) (u : User)
    → ((verify_found o deliver users u false false).users ≡ put (verified_user u) users)
      × ((verify_found o deliver users u false false).result
          ≡ (reply 200 "User verified successfully" users).result)
verify_found_users o deliver users u =
    unfold save_user in
    (
      ap (λ v. put v users) (pre_save-loaded o "" (verified_user u)),
      sent_returned (deliver record { recipient = u.email; subject = "User Verified"; link = none })
          (reply 200 "User verified successfully" users).result,
    )

runs_without_otp :
    (o : Outside) (deliver : Mail → Option String) (id now : ℕ) (users : List User) (u : User)
    → find_user_by_id id users ≡ some u
    → u.is_verified ≡ false
    → u.otp ≡ none
    → is_past now u.otp_expire ≡ false
    → ((verify_user o deliver id none now users).users ≡ put (verified_user u) users)
      × ((verify_user o deliver id none now users).result
          ≡ (reply 200 "User verified successfully" users).result)
unfolding verify_user
runs_without_otp o deliver id now users u f v n e =
    let accepted : not (same_otp u.otp none) || is_past now u.otp_expire ≡ false =
      simp (n, e) refl in
    let run : verify_user o deliver id none now users ≡ verify_found o deliver users u false false =
      ap (verify_with o deliver none now users) f
      ∙ (ap
            (λ b.
              verify_found o deliver users u b
                (not (same_otp u.otp none) || is_past now u.otp_expire))
            v
          ∙ ap (verify_found o deliver users u false) accepted) in
    rw run (verify_found_users o deliver users u)

-- An account that is not verified, has been issued no code, and whose twenty minutes are not over: a
-- request that sends no code is answered with success, and stores the account as verified, with its
-- address and its password as they were.
pub verify_user_without_otp :
    (o : Outside) (deliver : Mail → Option String) (id now : ℕ) (users : List User) (u : User)
    → find_user_by_id id users ≡ some u
    → u.is_verified ≡ false
    → u.otp ≡ none
    → is_past now u.otp_expire ≡ false
    → let run = verify_user o deliver id none now users in
      (w : User) × (run.result ≡ (reply 200 "User verified successfully" users).result)
      × (run.users ≡ put w users)
      × (find_user_by_id id run.users ≡ some w)
      × (w.is_verified ≡ true)
      × (w.email ≡ u.email)
      × (w.password ≡ u.password)
verify_user_without_otp o deliver id now users u f v n e =
    let (stored, answer) = runs_without_otp o deliver id now users u f v n e in
    let same : (u.id == id) ≡ true = find_first-true (λ u. u.id == id) users u f in
    (
      verified_user u,
      answer,
      stored,
      ap (find_user_by_id id) stored
          ∙ find_first-put (λ u. u.id == id) u (verified_user u) users f same refl,
      refl,
      refl,
      refl,
    )

module _ (o : Outside) (s : Settings) (g : GoogleClient) (p : Payload) (id now : ℕ)
    (users : List User) (u : User) where
  match_google_users :
      (email : String) (bg be : Option User)
      → bg ≡ none
      → be ≡ some u
      → (match_google o s g p email id now users bg be).users ≡ put (linked p u) users
  match_google_users email bg be h k =
      rw (h, k) (unfold save_user in ap (λ v. put v users) (pre_save-loaded o "" (linked p u)))

  payload_found_users :
      (e : String)
      → valid_issuer p.iss ≡ true
      → p.email ≡ some e
      → str_eq e "" ≡ false
      → p.email_verified ≡ some true
      → by_google p users ≡ none
      → by_email o (o.to_lower_case e) users ≡ some u
      → (with_payload o s g (some (some p)) id now users).users ≡ put (linked p u) users
  payload_found_users e iss em en emv bg be =
      let trusted : falsy p.email || not (is_true p.email_verified) ≡ false =
        simp (em, emv, en) refl in
      let address : o.to_lower_case (or_default p.email "") ≡ o.to_lower_case e =
        ap (λ x. o.to_lower_case (or_default x "")) em in
      let found : by_email o (o.to_lower_case (or_default p.email "")) users ≡ some u =
        ap (λ x. by_email o x users) address ∙ be in
      ap
        (λ b.
          (payload_found o s g p b (falsy p.email || not (is_true p.email_verified)) id now
            users).users)
        iss
      ∙ (ap (λ b. (payload_found o s g p true b id now users).users) trusted
          ∙ match_google_users (o.to_lower_case (or_default p.email "")) (by_google p users)
              (by_email o (o.to_lower_case (or_default p.email "")) users) bg found)

  google_auth_users :
      (c e : String)
      → str_eq s.google_client_id "" ≡ false
      → str_eq c "" ≡ false
      → g.verify_id_token c s.google_client_id ≡ some (some p)
      → (with_payload o s g (some (some p)) id now users).users ≡ put (linked p u) users
      → (google_auth o s g (some c) id now users).users ≡ put (linked p u) users
  unfolding google_auth
  google_auth_users c e gid cred ver h =
      rw (gid, cred) (ap (λ r. (with_payload o s g r id now users).users) ver ∙ h)

login_unverified :
    (o : Outside) (s : Settings) (e t : String) (users : List User) (u : User)
    → str_eq e "" ≡ false
    → find_user_by_email o e users ≡ some u
    → compare_password o u (some t) ≡ true
    → u.is_verified ≡ false
    → (login_user o s record { email = some e; username = none; password = some t } users).result
      ≡ thrown (api_error 401 (plain "User is not verified. Please verify your email first."))
unfolding login_user find_user_by_email
login_unverified o s e t users u n f c v = rw n (
    ap (λ r. (login_found o s (some t) users r).result) f
    ∙ (ap (λ b. (login_as o s u b u.is_verified users).result) c
        ∙ ap (λ b. (login_as o s u true b users).result) v))

linked-fields :
    (o : Outside) (p : Payload) (u : User) (t : String)
    → ((linked p u).id ≡ u.id)
      × ((linked p u).email ≡ u.email)
      × (compare_password o (linked p u) (some t) ≡ compare_password o u (some t))
      × ((linked p u).is_verified ≡ true)
unfolding linked compare_password
linked-fields o p u t = (refl, refl, refl, refl)

-- An account of an address that someone registered and never verified, so that its password opens no
-- session. Once the holder of the address signs in with Google, the same password does.
pub google_auth-login_user :
    (o : Outside) (s : Settings) (g : GoogleClient) (c e t : String) (p : Payload) (id now : ℕ)
    (users : List User) (u : User)
    → str_eq s.google_client_id "" ≡ false
    → str_eq c "" ≡ false
    → g.verify_id_token c s.google_client_id ≡ some (some p)
    → valid_issuer p.iss ≡ true
    → p.email ≡ some e
    → str_eq e "" ≡ false
    → str_eq (o.to_lower_case e) "" ≡ false
    → p.email_verified ≡ some true
    → by_google p users ≡ none
    → find_user_by_email o (o.to_lower_case e) users ≡ some u
    → u.is_verified ≡ false
    → compare_password o u (some t) ≡ true
    → (let b : Login = record {
      email = some (o.to_lower_case e);
      username = none;
      password = some t;
    } in
        ((login_user o s b users).result
          ≡ thrown (api_error 401 (plain "User is not verified. Please verify your email first.")))
        × (login_user o s b (google_auth o s g (some c) id now users).users
            ≡ signed_in o s 200 "User logged in successfully"
                (linked p u)
                (google_auth o s g (some c) id now users).users))
google_auth-login_user o s g c e t p id now users u gid cred ver iss em en el emv bg f v k =
    let by = found_by_email o (o.to_lower_case e) users u f in
    let welcome = payload_found_users o s g p id now users u e iss em en emv bg by in
    let stored = google_auth_users o s g p id now users u c e gid cred ver welcome in
    let kept = linked-fields o p u t in
    (
      login_unverified o s (o.to_lower_case e) t users u el f k v,
      rw stored (
          login_accepted o s (o.to_lower_case e) t (put (linked p u) users) (linked p u) el
            (put_found o (o.to_lower_case e) users u (linked p u) f kept.0 kept.1) (kept.2 ∙ k)
            kept.3),
    )

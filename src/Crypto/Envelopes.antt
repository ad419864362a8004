-- ===== src/Crypto/Envelopes.antt =====
-- Backend/src/utils/crypto.js: an envelope that is opened again.
use devops_hackathon.Prelude.{
  ℕ, ◌≡◌, refl, ap, sym, ◌∙◌, false, Option, none, some, List, [], ◌∷◌, ◌++◌, ◌==◌, All, arith, inl,
  inr, Bool-cases, Option-cases,
}
use devops_hackathon.Prelude.Texts.{Text, text_eq, text_eq-path, is_empty}
use devops_hackathon.Crypto.{
  Outside, Bytes, colon, version, get_key, envelope, sealed, encrypt_secret, opened_parts, split,
  add_unit, unsealed, decrypt_secret, parsed_headers, decrypt_auth_headers,
}

-- No part of an envelope is cut.
abbrev pub NoColon : Text → Type 0
NoColon t = All (λ c. (c == colon) ≡ false) t

-- What the code relies on: base64 is read back and has no colon, the cipher opens what it closed, and
-- JSON reads back what it printed, which is not empty.
pub record Lawful {H : Type 0} (o : Outside H) : Type 0 where
  pub base64_back : (b : Bytes) → o.from_base64 (o.base64 b) ≡ b
  pub base64-NoColon : (b : Bytes) → NoColon (o.base64 b)
  pub opens :
      (key iv : Bytes) (h : H)
      → o.decipher key iv (o.cipher key iv (o.stringify h)).1 (o.cipher key iv (o.stringify h)).0
        ≡ some (o.stringify h)
  pub parses : (h : H) → o.parse (o.stringify h) ≡ some (some h)
  pub printed : (h : H) → is_empty (o.stringify h) ≡ false

-- Headers that JSON reads back are what is made of the text.
parsed_back :
    {H : Type 0} (o : Outside H) (t : Text) (h : H)
    → is_empty t ≡ false
    → o.parse t ≡ some (some h)
    → parsed_headers o (some t) ≡ h
parsed_back o [] h n e = ground arith
parsed_back o (c ∷ cs) h n e = rw (parsed_headers, e) refl

split_parts : (u : Text) → (t : Text) × (ts : List Text) × (split u ≡ t ∷ ts)
split_parts [] = ([], [], refl)
split_parts (c ∷ cs) =
    let (t, ts, e) = split_parts cs in
    elim (Bool-cases (c == colon)) [
      | inl k ↦ ([], t ∷ ts, ap (add_unit c) e ∙ rw k refl)
      | inr k ↦ (c ∷ t, ts, ap (add_unit c) e ∙ rw k refl)
    ]

add_unit_last :
    (c : ℕ) (t : Text) (ts : List Text) → (c == colon) ≡ false → add_unit c (t ∷ ts) ≡ (c ∷ t) ∷ ts
add_unit_last c t ts n = rw n refl

split-NoColon : (t : Text) → NoColon t → split t ≡ t ∷ []
split-NoColon [] n = refl
split-NoColon (c ∷ cs) n = ap (add_unit c) (split-NoColon cs n.1) ∙ add_unit_last c cs [] n.0

split-append : (t u : Text) → NoColon t → split (t ++ (colon ∷ u)) ≡ t ∷ split u
split-append [] u n =
    let (t, ts, e) = split_parts u in ap (add_unit colon) e ∙ ap (λ s. [] ∷ s) (sym e)
split-append (c ∷ cs) u n =
    ap (add_unit c) (split-append cs u n.1) ∙ add_unit_last c cs (split u) n.0

module _ {H : Type 0} (o : Outside H) (law : Lawful o) where
  split-envelope :
      (iv : Bytes) (x : Bytes × Bytes)
      → split (envelope o iv x) ≡ version ∷ o.base64 iv ∷ o.base64 x.1 ∷ o.base64 x.0 ∷ []
  split-envelope iv x =
      split-append version (o.base64 iv ++ (colon ∷ (o.base64 x.1 ++ (colon ∷ o.base64 x.0))))
        (refl, (refl, tt))
      ∙ ap (λ s. version ∷ s)
          (split-append (o.base64 iv) (o.base64 x.1 ++ (colon ∷ o.base64 x.0))
              (law.base64-NoColon iv)
            ∙ ap (λ s. o.base64 iv ∷ s)
                (split-append (o.base64 x.1) (o.base64 x.0) (law.base64-NoColon x.1)
                  ∙ ap (λ s. o.base64 x.1 ∷ s)
                      (split-NoColon (o.base64 x.0) (law.base64-NoColon x.0))))

  opened_back :
      (key iv : Bytes) (h : H)
      → unsealed o (some key) (some (envelope o iv (o.cipher key iv (o.stringify h))))
        ≡ some (o.stringify h)
  opened_back key iv h =
      let x = o.cipher key iv (o.stringify h) in
      ap (opened_parts o key) (split-envelope iv x)
      ∙ rw (law.base64_back iv, law.base64_back x.1, law.base64_back x.0) (law.opens key iv h)

-- Laws of base64, the cipher and JSON, and a key: what the stored envelope of a monitor's headers is
-- read as are those headers, whatever nonce was drawn and whether or not the key was cached.
pub decrypt_auth_headers-encrypt_secret :
    {H : Type 0} (o : Outside H) (law : Lawful o) (cached later : Option Bytes) (raw : Text)
    (iv key : Bytes) (h : H)
    → get_key o cached raw ≡ some key
    → get_key o later raw ≡ some key
    → decrypt_auth_headers o later raw (encrypt_secret o cached raw iv (o.stringify h)) ≡ h
unfolding decrypt_auth_headers encrypt_secret
decrypt_auth_headers-encrypt_secret o law cached later raw iv key h k l =
    let x = o.cipher key iv (o.stringify h) in
    ap (λ c. parsed_headers o (unsealed o (get_key o later raw) (sealed o c iv (o.stringify h)))) k
    ∙ (ap (λ c. parsed_headers o (unsealed o c (some (envelope o iv x)))) l
        ∙ (ap (parsed_headers o) (opened_back o law key iv h)
            ∙ parsed_back o (o.stringify h) h (law.printed h) (law.parses h)))

parts_opened :
    {H : Type 0} (o : Outside H) (key : Bytes) (parts : List Text) (t : Text)
    → opened_parts o key parts ≡ some t
    → (iv : Text) × (tag : Text) × (data_ : Text) × (more : List Text) × (parts
        ≡ version ∷ iv ∷ tag ∷ data_ ∷ more)
      × (o.decipher key (o.from_base64 iv) (o.from_base64 tag) (o.from_base64 data_) ≡ some t)
parts_opened o key [] t h = ground arith
parts_opened o key (v ∷ []) t h = ground arith
parts_opened o key (v ∷ iv ∷ []) t h = ground arith
parts_opened o key (v ∷ iv ∷ tag ∷ []) t h = ground arith
parts_opened o key (v ∷ iv ∷ tag ∷ data_ ∷ more) t h = elim (Bool-cases (text_eq v version)) [
  | inl e ↦ (
    iv,
    tag,
    data_,
    more,
    ap (λ v. v ∷ iv ∷ tag ∷ data_ ∷ more) (text_eq-path v version e),
    rw e at h,
  )
  | inr e ↦ let k = rw e at h in ground arith
]

-- Whatever is stored, a text that `decryptSecret` returns is one that the cipher opened, with the
-- configured key, from the three parts of an envelope of version v1: without a key, with another
-- version, with a part missing, or where the cipher refuses the tag, it returns null.
pub decrypt_secret_opened :
    {H : Type 0} (o : Outside H) (cached : Option Bytes) (raw : Text) (e : Option Text) (t : Text)
    → decrypt_secret o cached raw e ≡ some t
    → (key : Bytes) × (stored : Text) × (iv : Text) × (tag : Text) × (data_ : Text) × (more : List
        Text)
      × (get_key o cached raw ≡ some key)
      × (e ≡ some stored)
      × (split stored ≡ version ∷ iv ∷ tag ∷ data_ ∷ more)
      × (o.decipher key (o.from_base64 iv) (o.from_base64 tag) (o.from_base64 data_) ≡ some t)
unfolding decrypt_secret
decrypt_secret_opened o cached raw none t h = elim (Option-cases (get_key o cached raw)) [
  | inl k ↦ let x = ap (λ c. unsealed o c none) (sym k) ∙ h in ground arith
  | inr (key, k) ↦ let x = ap (λ c. unsealed o c none) (sym k) ∙ h in ground arith
]
decrypt_secret_opened o cached raw (some []) t h = elim (Option-cases (get_key o cached raw)) [
  | inl k ↦ let x = ap (λ c. unsealed o c (some [])) (sym k) ∙ h in ground arith
  | inr (key, k) ↦ let x = ap (λ c. unsealed o c (some [])) (sym k) ∙ h in ground arith
]
decrypt_secret_opened o cached raw (some (c ∷ cs)) t h =
    elim (Option-cases (get_key o cached raw)) [
      | inl k ↦ let x = ap (λ g. unsealed o g (some (c ∷ cs))) (sym k) ∙ h in ground arith
      | inr (key, k) ↦
          let x = ap (λ g. unsealed o g (some (c ∷ cs))) (sym k) ∙ h in
          let (iv, tag, data_, more, parts, d) = parts_opened o key (split (c ∷ cs)) t x in
          (key, c ∷ cs, iv, tag, data_, more, k, refl, parts, d)
    ]

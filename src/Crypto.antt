-- ===== src/Crypto.antt =====
-- Backend/src/utils/crypto.js: the envelope that a monitor's request headers are stored in. The cipher,
-- base64, hexadecimal, scrypt and JSON are the outside's; a text is the list of its code units.
pub mod Envelopes
use devops_hackathon.Prelude.{
  ℕ, ◌≡◌, Bool, true, false, Option, none, some, List, [], ◌∷◌, ◌++◌, ◌&&◌, ◌||◌, not, ◌==◌, leb,
  ltb, if◌then◌else◌, length, All,
}
use devops_hackathon.Prelude.Texts.{Text, codes, text_eq, trim, is_empty}

abbrev pub Bytes : Type 0
Bytes = List ℕ

-- `H` is an object of headers. `cipher` gives the data and the tag; `decipher` is none where it throws.
-- `parse` is none where `JSON.parse` throws, and its inner none a value that is no object.
pub record Outside (H : Type 0) : Type 0 where
  pub cipher : (key iv : Bytes) → Text → Bytes × Bytes
  pub decipher : (key iv tag data_ : Bytes) → Option Text
  pub base64 : Bytes → Text
  pub from_base64 : Text → Bytes
  pub from_hex : Text → Bytes
  pub scrypt : Text → Bytes
  pub stringify : H → Text
  pub parse : Text → Option (Option H)
  pub no_headers : H

abbrev pub colon : ℕ
colon = b':'

abbrev pub version : Text
version = codes "v1"

abbrev is_hex : Text → Bool
is_hex [] = true
is_hex (c ∷ cs) =
    ((leb b'0' c && leb c b'9') || (leb b'a' c && leb c b'f') || (leb b'A' c && leb c b'F'))
    && is_hex cs

module _ {H : Type 0} (o : Outside H) where
  abbrev derived_key : (raw : Text) → Option Bytes
  derived_key raw =
      if is_empty raw
      then none
      else if is_hex raw && (length raw == 64)
      then some (o.from_hex raw)
      else some (o.scrypt raw)

  -- `getKey`: the key, which is also what is cached from then on.
  unfoldable pub get_key : (cached : Option Bytes) → (raw : Text) → Option Bytes
  get_key (some key) raw = some key
  get_key none raw = derived_key raw

  -- `[VERSION, iv, tag, data].join(':')`
  abbrev pub envelope : (iv : Bytes) → Bytes × Bytes → Text
  envelope iv (data_, tag) =
      version ++ (colon ∷ (o.base64 iv ++ (colon ∷ (o.base64 tag ++ (colon ∷ o.base64 data_)))))

  abbrev pub sealed : (key : Option Bytes) → (iv : Bytes) → Text → Option Text
  sealed none iv plaintext = none
  sealed (some key) iv plaintext = some (envelope iv (o.cipher key iv plaintext))

  -- `iv` is the random nonce; none where the function throws.
  unfoldable pub encrypt_secret :
      (cached : Option Bytes) → (raw : Text) → (iv : Bytes) → (plaintext : Text) → Option Text
  unfolding get_key
  encrypt_secret cached raw iv plaintext = sealed (get_key cached raw) iv plaintext

  -- The first four parts of `split(':')`; one that is missing makes `Buffer.from` throw, once the
  -- version is right.
  abbrev pub opened_parts : (key : Bytes) → List Text → Option Text
  opened_parts key (v ∷ iv ∷ tag ∷ data_ ∷ more) =
      if text_eq v version
      then o.decipher key (o.from_base64 iv) (o.from_base64 tag) (o.from_base64 data_)
      else none
  opened_parts key _ = none

abbrev pub add_unit : ℕ → List Text → List Text
add_unit c [] = (c ∷ []) ∷ []
add_unit c (t ∷ ts) = if c == colon then [] ∷ t ∷ ts else (c ∷ t) ∷ ts

-- `split(':')`
abbrev pub split : Text → List Text
split [] = [] ∷ []
split (c ∷ cs) = add_unit c (split cs)

module _ {H : Type 0} (o : Outside H) where
  abbrev pub unsealed : (key : Option Bytes) → (envelope : Option Text) → Option Text
  unsealed none envelope = none
  unsealed (some key) none = none
  unsealed (some key) (some []) = none
  unsealed (some key) (some (c ∷ cs)) = opened_parts o key (split (c ∷ cs))

  -- `envelope` is none unless it is a string.
  unfoldable pub decrypt_secret :
      (cached : Option Bytes) → (raw : Text) → (envelope : Option Text) → Option Text
  unfolding get_key
  decrypt_secret cached raw envelope = unsealed (get_key o cached raw) envelope

  abbrev pub parsed_headers : Option Text → H
  parsed_headers none = o.no_headers
  parsed_headers (some []) = o.no_headers
  parsed_headers (some (c ∷ cs)) = elim (o.parse (c ∷ cs)) [
    | none ↦ o.no_headers
    | some none ↦ o.no_headers
    | some (some h) ↦ h
  ]

  unfoldable pub decrypt_auth_headers :
      (cached : Option Bytes) → (raw : Text) → (envelope : Option Text) → H
  unfolding decrypt_secret
  decrypt_auth_headers cached raw envelope = parsed_headers (decrypt_secret cached raw envelope)

-- A value as `hasCredentials` tells it apart.
pub data Value : Type 0 where
  falsy_value : Value
  text_value : Text → Value
  object_value : (keys : ℕ) → Value
  other_value : Value

unfoldable pub has_credentials : Value → Bool
has_credentials falsy_value = false
has_credentials (text_value t) = not (is_empty (trim t))
has_credentials (object_value keys) = ltb 0 keys
has_credentials other_value = false

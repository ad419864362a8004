-- ===== src/Tests/Envelopes.antt =====
-- An envelope with a cipher that hides nothing.
use devops_hackathon.Prelude.{
  ℕ, zero, suc, ◌≡◌, refl, ap, ◌∙◌, Option, none, some, List, [], ◌∷◌, ◌==◌, if◌then◌else◌,
}
use devops_hackathon.Prelude.Texts.{Text, codes}
use devops_hackathon.Crypto.{
  Outside, Bytes, version, get_key, encrypt_secret, decrypt_secret, decrypt_auth_headers, split,
}
use devops_hackathon.Crypto.Envelopes.{
  Lawful, NoColon, decrypt_auth_headers-encrypt_secret, decrypt_secret_opened,
}

-- A byte is spelled by as many letters, and a stop.
abbrev tally : ℕ → Text → Text
tally zero t = b'.' ∷ t
tally (suc n) t = b'i' ∷ tally n t

abbrev spelled : Bytes → Text
spelled [] = []
spelled (b ∷ bs) = tally b (spelled bs)

abbrev raised : Bytes → Bytes
raised [] = []
raised (b ∷ bs) = suc b ∷ bs

abbrev read : Text → Bytes
read [] = []
read (c ∷ cs) = let rest = read cs in if c == b'.' then zero ∷ rest else raised rest

read-tally : (n : ℕ) (t : Text) → read (tally n t) ≡ n ∷ read t
read-tally zero t = refl
read-tally (suc n) t = ap raised (read-tally n t)

read-spelled : (b : Bytes) → read (spelled b) ≡ b
read-spelled [] = refl
read-spelled (b ∷ bs) = read-tally b (spelled bs) ∙ ap (λ r. b ∷ r) (read-spelled bs)

tally-NoColon : (n : ℕ) (t : Text) → NoColon t → NoColon (tally n t)
tally-NoColon zero t h = (refl, h)
tally-NoColon (suc n) t h = (refl, tally-NoColon n t h)

spelled-NoColon : (b : Bytes) → NoColon (spelled b)
spelled-NoColon [] = tt
spelled-NoColon (b ∷ bs) = tally-NoColon b (spelled bs) (spelled-NoColon bs)

-- Headers are any text; JSON puts a brace before it.
abbrev parse : Text → Option (Option Text)
parse [] = none
parse (c ∷ cs) = some (some cs)

abbrev outside : Outside Text
outside = record {
  cipher = λ key iv t. (t, []);
  decipher = λ key iv tag data_. some data_;
  base64 = spelled;
  from_base64 = read;
  from_hex = λ t. t;
  scrypt = λ t. t;
  stringify = λ h. b'{' ∷ h;
  parse = parse;
  no_headers = [];
}

lawful : Lawful outside
lawful = record {
  base64_back = read-spelled;
  base64-NoColon = spelled-NoColon;
  opens = λ key iv h. refl;
  parses = λ h. refl;
  printed = λ h. refl;
}

decrypt_auth_headers-encrypt_secret_example :
    decrypt_auth_headers outside none
      (codes "secret")
      (encrypt_secret outside none (codes "secret") (1 ∷ []) (b'{' ∷ 3 ∷ 58 ∷ []))
    ≡ 3 ∷ 58 ∷ []
decrypt_auth_headers-encrypt_secret_example =
    decrypt_auth_headers-encrypt_secret outside lawful none none (codes "secret") (1 ∷ [])
      (codes "secret") (3 ∷ 58 ∷ []) (unfold get_key in refl) (unfold get_key in refl)

abbrev stored : Text
stored = codes "v1::.:i.i."

read_stored : decrypt_secret outside none (codes "secret") (some stored) ≡ some (1 ∷ 1 ∷ [])
unfolding decrypt_secret
read_stored = refl

unknown_version : decrypt_secret outside none (codes "secret") (some (codes "v2::.:i.")) ≡ none
unfolding decrypt_secret
unknown_version = refl

decrypt_secret_opened_example :
    (key : Bytes) × (kept : Text) × (iv : Text) × (tag : Text) × (data_ : Text) × (more : List Text)
    × (get_key outside none (codes "secret") ≡ some key)
    × (some stored ≡ some kept)
    × (split kept ≡ version ∷ iv ∷ tag ∷ data_ ∷ more)
    × (some (read data_) ≡ some (1 ∷ 1 ∷ []))
decrypt_secret_opened_example =
    decrypt_secret_opened outside none (codes "secret") (some stored) (1 ∷ 1 ∷ []) read_stored

-- ===== src/StatusPage/Slug.antt =====
-- Backend/src/models/statusPage.model.js: `slugify` and the reserved slugs. A text is the list of its
-- code units. The Unicode tables behind `normalize('NFKD')` and `toLowerCase` are the outside's.
pub mod Shape
use devops_hackathon.Prelude.{
  ℕ, ◌≡◌, Bool, true, false, List, map, [], ◌∷◌, ◌&&◌, ◌||◌, not, leb, ◌==◌, if◌then◌else◌,
}
use devops_hackathon.Prelude.Texts.{Text, trim, take, filter, drop_start, drop_end, elem, codes}

pub record Unicode : Type 0 where
  pub normalize : Text → Text
  pub to_lower_case : Text → Text

abbrev pub dash : ℕ
dash = b'-'

-- `[a-z0-9]`
abbrev pub is_word : ℕ → Bool
is_word c = (leb b'a' c && leb c b'z') || (leb b'0' c && leb c b'9')

abbrev pub is_dash : ℕ → Bool
is_dash c = c == dash

-- The complement of `[̀-ͯ]`, the combining marks.
abbrev pub unmarked : ℕ → Bool
unmarked c = not (leb 768 c && leb c 879)

-- `replace(/[^a-z0-9]+/g, '-')`; the flag says that the character before was replaced.
abbrev pub dashed : Bool → Text → Text
dashed b [] = []
dashed b (c ∷ cs) =
    if is_word c then c ∷ dashed false cs else if b then dashed true cs else dash ∷ dashed true cs

unfoldable pub slugify : Unicode → Text → Text
slugify u input = take 60 (
    drop_end is_dash (
      drop_start is_dash
        (dashed false (trim (u.to_lower_case (filter unmarked (u.normalize input)))))))

-- RESERVED_SLUGS
abbrev pub reserved_slugs : List Text
reserved_slugs = map codes (
    "api" ∷ "admin" ∷ "login" ∷ "logout" ∷ "register" ∷ "dashboard" ∷ "settings" ∷ "status"
    ∷ "metrics" ∷ "health" ∷ "assets" ∷ "static" ∷ "new" ∷ "edit" ∷ "null" ∷ "undefined" ∷ [])

unfoldable pub is_reserved_slug : Text → Bool
is_reserved_slug slug = elem slug reserved_slugs

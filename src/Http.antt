-- ===== src/Http.antt =====
-- Backend/src/utils/ApiError.js, utils/ApiResponse.js, utils/asyncHandler.js and
-- middlewares/error.middleware.js: what a handler ends in, and the response that the client gets.
pub mod Errors
use devops_hackathon.Prelude.{
  ℕ, ◌≡◌, ◌≢◌, ◌⊎◌, inl, inr, refl, Bool, true, false, Option, none, some, List, [], ◌∷◌, ◌==◌, leb,
  ltb, if◌then◌else◌, or_default, or_falsy, or_text, arith, Bool-cases, max,
}
use devops_hackathon.Prelude.Texts.{Text}
use devops_hackathon.Store.{DbError, duplicate_key, failure}
use Prim.Native.String.{String}
use text.Mathlib.Text.{◌==◌ as str_eq}
use text.Mathlib.TextEquality.{eq_iff}

-- A text that is written out, or one that quotes another text between two parts, the first of which
-- is not empty.
pub data Message : Type 0 where
  plain : String → Message
  quoting : String → Text → String → Message

-- `message || fallback`
abbrev or_message : Option Message → String → Message
or_message none fallback = plain fallback
or_message (some (plain m)) fallback = if str_eq m "" then plain fallback else plain m
or_message (some (quoting a t b)) fallback = quoting a t b

-- An error object; `kind` is its `type`.
pub record Raised : Type 0 where
  pub is_api_error : Bool
  pub kind : Option String
  pub status_code : Option ℕ
  pub message : Option Message
  pub errors : Option (List String)
  pub stack : Option String

-- `new ApiError(statusCode, message, errors)`
unfoldable pub api_error_object : ℕ → Option Message → Option (List String) → Option String → Raised
api_error_object status message errors stack = record {
  is_api_error = true;
  kind = none;
  status_code = some status;
  message = some (or_default message (plain "Something went wrong"));
  errors = some (or_default errors []);
  stack = stack;
}

-- `new ApiResponse(statusCode, data, message)`
pub record ApiResponse (A : Type 0) : Type 0 where
  pub status_code : ℕ
  pub data_ : A
  pub message : String
  pub success : Bool

unfoldable pub api_response : {A : Type 0} → ℕ → A → Option String → ApiResponse A
api_response status data_ message = record {
  status_code = status;
  data_ = data_;
  message = or_default message "Success";
  success = ltb status 400;
}

-- BODY_PARSER_ERRORS
unfoldable pub body_parser_error : Option String → Option (ℕ × Message)
body_parser_error none = none
body_parser_error (some t) =
    if str_eq t "entity.parse.failed"
    then some (400, plain "Request body is not valid JSON")
    else if str_eq t "entity.too.large"
    then some (413, plain "Request body is too large")
    else if str_eq t "encoding.unsupported"
    then some (415, plain "Unsupported content encoding")
    else if str_eq t "request.aborted"
    then some (400, plain "Request was aborted before it completed")
    else none

-- The JSON of a failure, with the status that it is sent under and whether it was logged.
pub record ErrorReply : Type 0 where
  pub http_status : ℕ
  pub status_code : ℕ
  pub success : Bool
  pub message : Message
  pub errors : List String
  pub stack : Option String
  pub logged : Bool

abbrev pub translated : Bool → Option (ℕ × Message) → Raised → Raised
translated true p error = error
translated false (some (status, message)) error = api_error_object status (some message) none none
translated false none error = error

abbrev pub as_api_error : Raised → Raised
as_api_error error =
    if error.is_api_error
    then error
    else api_error_object (or_falsy error.status_code 500)
        (some (or_message error.message "Internal Server Error")) none none

abbrev pub stack_shown : Option String → Option String → Option String
stack_shown none stack = none
stack_shown (some env) stack = if str_eq env "development" then stack else none

abbrev pub reply_of : (node_env : Option String) → Raised → Raised → ErrorReply
reply_of node_env err error = record {
  http_status = or_default error.status_code 0;
  status_code = or_default error.status_code 0;
  success = false;
  message = or_default error.message (plain "");
  errors = or_default error.errors [];
  stack = stack_shown node_env err.stack;
  logged = leb 500 (or_default error.status_code 0);
}

unfoldable pub error_middleware : (node_env : Option String) → Raised → ErrorReply
unfolding body_parser_error api_error_object
error_middleware node_env err =
    reply_of node_env err
      (as_api_error (translated err.is_api_error (body_parser_error err.kind) err))

-- What the asynchronous body of a handler ends in: a value, an `ApiError`, or another error.
pub data Failure : Type 0 where
  api_error : (status_code : ℕ) (message : Message) → Failure
  db_error : DbError → Failure
  other_error : (message : String) → Failure
  -- An error of a package, which may carry a `type` and a `statusCode`.
  foreign_error :
      (kind : Option String) (status_code : Option ℕ) (message : Option Message) → Failure

pub data Outcome (A : Type 0) : Type 0 where
  returned : A → Outcome A
  thrown : Failure → Outcome A

infixl 20 ◌>>=◌
abbrev pub ◌>>=◌ : {A B : Type 0} → Outcome A → (A → Outcome B) → Outcome B
returned a >>= f = f a
thrown e >>= f = thrown e

-- `if (!b) throw e`, and the rest of the handler.
abbrev pub require : {A : Type 0} → Bool → Failure → Outcome A → Outcome A
require b e rest = if b then rest else thrown e

-- The error object behind a failure, with its stack. The driver's duplicate-key error begins with
-- its code.
abbrev other : (message : String) → Option String → Raised
other message stack = record {
  is_api_error = false;
  kind = none;
  status_code = none;
  message = some (plain message);
  errors = none;
  stack = stack;
}

unfoldable pub raised_by : Failure → Option String → Raised
unfolding api_error_object
raised_by (api_error status message) stack = api_error_object status (some message) none stack
raised_by (db_error duplicate_key) stack = other "E11000 duplicate key error" stack
raised_by (db_error (failure message)) stack = other message stack
raised_by (other_error message) stack = other message stack
raised_by (foreign_error kind status_code message) stack = record {
  is_api_error = false;
  kind = kind;
  status_code = status_code;
  message = message;
  errors = none;
  stack = stack;
}

-- `asyncHandler`: the response, or what the error handler makes of the rejection.
unfoldable pub async_handler :
    {A : Type 0} → (node_env stack : Option String) → Outcome A → A ⊎ ErrorReply
unfolding raised_by error_middleware
async_handler node_env stack (returned a) = inl a
async_handler node_env stack (thrown e) = inr (error_middleware node_env (raised_by e stack))

pub bind-returned :
    {A B : Type 0} (m : Outcome A) (f : A → Outcome B) (b : B)
    → m >>= f ≡ returned b
    → (a : A) × (m ≡ returned a) × (f a ≡ returned b)
bind-returned (returned a) f b h = (a, refl, h)
bind-returned (thrown e) f b h = ground arith

pub require-returned :
    {A : Type 0} (b : Bool) (e : Failure) (rest : Outcome A) (a : A)
    → require b e rest ≡ returned a
    → (b ≡ true) × (rest ≡ returned a)
require-returned true e rest a h = (refl, h)
require-returned false e rest a h = ground arith

pub returned_injective : {A : Type 0} (a b : A) → returned a ≡ returned b → a ≡ b
returned_injective a b h = cc

pub Outcome-cases :
    {A : Type 0} (m : Outcome A) → ((e : Failure) × (m ≡ thrown e)) ⊎ ((a : A) × (m ≡ returned a))
Outcome-cases (returned a) = inr (a, refl)
Outcome-cases (thrown e) = inl (e, refl)

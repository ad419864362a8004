-- ===== src/Http/Errors.antt =====
-- Backend/src/middlewares/error.middleware.js: the reply to a failed request.
use devops_hackathon.Prelude.{
  ℕ, zero, suc, ◌∙◌, if◌then◌else◌, ◌==◌, ◌≡◌, ◌≢◌, ◌⊎◌, inl, inr, refl, ap, subst, false, Option,
  none, some, leb, arith, Bool-cases,
}
use devops_hackathon.Http.{
  Message, Raised, ErrorReply, error_middleware, body_parser_error, Failure, async_handler,
  raised_by, api_error, db_error, other_error, foreign_error, thrown, stack_shown, as_api_error,
  translated, reply_of, api_error_object,
}
use devops_hackathon.Store.{duplicate_key, failure}
use Prim.Native.String.{String}
use text.Mathlib.Text.{◌==◌ as str_eq}
use text.Mathlib.TextEquality.{eq_iff}

-- The status of the refusals of the body parser.
abbrev pub parser_status : Option String → Option ℕ
parser_status none = none
parser_status (some kind) =
    if str_eq kind "entity.parse.failed"
    then some 400
    else if str_eq kind "entity.too.large"
    then some 413
    else if str_eq kind "encoding.unsupported"
    then some 415
    else if str_eq kind "request.aborted"
    then some 400
    else none

-- The status of a package's error: the parser's, or else its own, or else 500.
abbrev pub foreign_status : (parser own : Option ℕ) → ℕ
foreign_status (some n) own = n
foreign_status none none = 500
foreign_status none (some zero) = 500
foreign_status none (some (suc n)) = suc n

-- The status that a failure deserves.
abbrev pub status_of : Failure → ℕ
status_of (api_error status message) = status
status_of (db_error e) = 500
status_of (other_error message) = 500
status_of (foreign_error kind status message) = foreign_status (parser_status kind) status

stack_shown_outside :
    (env stack : Option String) → env ≢ some "development" → stack_shown env stack ≡ none
stack_shown_outside none stack h = refl
stack_shown_outside (some env) stack h = elim (Bool-cases (str_eq env "development")) [
  | inl e ↦ elim (h (ap some ((eq_iff env "development").0 e))) [ ]
  | inr e ↦ rw e refl
]

abbrev status_in : Option (ℕ × Message) → Option ℕ
status_in none = none
status_in (some p) = some p.0

body_parser_error-status :
    (kind : Option String) → status_in (body_parser_error kind) ≡ parser_status kind
unfolding body_parser_error
body_parser_error-status none = refl
body_parser_error-status (some kind) = ground arith

abbrev Deserves : Option String → Raised → ℕ → ErrorReply → Type 0
Deserves env err n r =
    (r.http_status ≡ n)
    × (r.status_code ≡ n)
    × (r.success ≡ false)
    × (r.stack ≡ stack_shown env err.stack)
    × (r.logged ≡ leb 500 n)

not_zero : (n : ℕ) → (suc n == 0) ≡ false
not_zero n = ground arith

module _ (env stack kind : Option String) (message : Option Message) where
  abbrev foreign : Option ℕ → Raised
  foreign own = record {
    is_api_error = false;
    kind = kind;
    status_code = own;
    message = message;
    errors = none;
    stack = stack;
  }

  replied-Deserves :
      (p : Option (ℕ × Message)) (own : Option ℕ)
      → Deserves env
          (foreign own)
          (foreign_status (status_in p) own)
          (reply_of env (foreign own) (as_api_error (translated false p (foreign own))))
  unfolding api_error_object
  replied-Deserves (some p) own = (refl, refl, refl, refl, refl)
  replied-Deserves none none = (refl, refl, refl, refl, refl)
  replied-Deserves none (some zero) = (refl, refl, refl, refl, refl)
  replied-Deserves none (some (suc n)) = rw (not_zero n) (refl, refl, refl, refl, refl)

  foreign-Deserves :
      (own : Option ℕ)
      → Deserves env
          (foreign own)
          (foreign_status (parser_status kind) own)
          (error_middleware env (foreign own))
  unfolding error_middleware
  foreign-Deserves own =
      subst
        (λ s.
          Deserves env (foreign own) (foreign_status s own) (error_middleware env (foreign own)))
        (body_parser_error-status kind) (replied-Deserves (body_parser_error kind) own)

-- A handler that ends in a failure, with the stack that its error carries: outside development the
-- reply has no stack. The body repeats the HTTP status, which is an `ApiError`'s own, and for any other
-- error the body parser's of its `type`, or else its own `statusCode`, or else 500; the failure is
-- logged exactly if that status is 500 or above.
pub async_handler-thrown :
    {A : Type 0} (env stack : Option String) (e : Failure)
    → env ≢ some "development"
    → (r : ErrorReply) × (async_handler {A = A} env stack (thrown e) ≡ inr r)
      × (r.http_status ≡ status_of e)
      × (r.status_code ≡ status_of e)
      × (r.success ≡ false)
      × (r.stack ≡ none)
      × (r.logged ≡ leb 500 (status_of e))
unfolding async_handler raised_by error_middleware
async_handler-thrown env stack (api_error s m) dev =
    (_, refl, refl, refl, refl, stack_shown_outside env stack dev, refl)
async_handler-thrown env stack (db_error duplicate_key) dev =
    (_, refl, refl, refl, refl, stack_shown_outside env stack dev, refl)
async_handler-thrown env stack (db_error (failure m)) dev =
    (_, refl, refl, refl, refl, stack_shown_outside env stack dev, refl)
async_handler-thrown env stack (other_error m) dev =
    (_, refl, refl, refl, refl, stack_shown_outside env stack dev, refl)
async_handler-thrown env stack (foreign_error kind status m) dev =
    let (http, body, success, shown, logged) = foreign-Deserves env stack kind m status in
    (_, refl, http, body, success, shown ∙ stack_shown_outside env stack dev, logged)

-- What the parser's table can hold.
abbrev pub IsRefusal : Option (ℕ × Message) → Type 0
IsRefusal none = Unit
IsRefusal (some p) = (p.0 ≡ 400) ⊎ (p.0 ≡ 413) ⊎ (p.0 ≡ 415)

body_parser_error-IsRefusal : (kind : Option String) → IsRefusal (body_parser_error kind)
unfolding body_parser_error
body_parser_error-IsRefusal none = tt
body_parser_error-IsRefusal (some t) = ground arith

refusal_unlogged : (p : ℕ × Message) → IsRefusal (some p) → leb 500 p.0 ≡ false
refusal_unlogged p h = ground arith

-- An error that is no `ApiError`, of a kind that the body parser's table has: the reply is the
-- table's, with status 400, 413 or 415, never logged as a fault of the server.
pub error_middleware-parser :
    (env : Option String) (r : Raised) (p : ℕ × Message)
    → r.is_api_error ≡ false
    → body_parser_error r.kind ≡ some p
    → (IsRefusal (some p))
      × ((error_middleware env r).http_status ≡ p.0)
      × ((error_middleware env r).message ≡ p.1)
      × ((error_middleware env r).logged ≡ false)
unfolding error_middleware
error_middleware-parser env r p h e =
    let known = subst IsRefusal e (body_parser_error-IsRefusal r.kind) in
    rw (h, e) (known, refl, refl, refusal_unlogged p known)

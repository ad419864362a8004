-- ===== src/Tests/Https.antt =====
-- Failures as the client sees them.
use devops_hackathon.Prelude.{ℕ, ◌≡◌, ◌≢◌, refl, false, Option, none, some, arith, inr}
use devops_hackathon.Http.{
  ErrorReply, Raised, thrown, foreign_error, plain, async_handler, error_middleware,
}
use devops_hackathon.Http.Errors.{async_handler-thrown}
use Prim.Native.String.{String}

no_environment : ◌≢◌ {A = Option String} none (some "development")
no_environment h = ground (arith, h)

async_handler-thrown_example :
    (r : ErrorReply) × (async_handler {A = ℕ} none
        (some "at run")
        (thrown (foreign_error (some "entity.expected") (some 422) none))
      ≡ inr r)
    × (r.http_status ≡ 422)
    × (r.status_code ≡ 422)
    × (r.success ≡ false)
    × (r.stack ≡ none)
    × (r.logged ≡ false)
async_handler-thrown_example =
    async_handler-thrown none (some "at run")
      (foreign_error (some "entity.expected") (some 422) none) no_environment

abbrev malformed : Raised
malformed = record {
  is_api_error = false;
  kind = some "entity.parse.failed";
  status_code = some 400;
  message = some (plain "Unexpected token");
  errors = none;
  stack = none;
}

malformed_reply : (error_middleware none malformed).message ≡ plain "Request body is not valid JSON"
unfolding error_middleware
malformed_reply = refl

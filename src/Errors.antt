-- ===== src/Errors.antt =====
-- server/errors.go: the application error, its codes, and the choice between two failures.
pub mod Preference
pub mod Policy
pub mod Card
use Prim.Native.String.{String}
use oginstagram.Base.{ℕ, Bool, true, false, not, ◌&&◌, ◌||◌, Option, none, some, if◌then◌else◌}
use oginstagram.Base.Text.{Text}
use oginstagram.Config.{transient_error_cache_seconds, permanent_error_cache_seconds}

-- The constants `errorCode…`; the source also writes the empty code, and a private helper may
-- return a code of its own.
pub data ErrorCode : Type 0 where
  connection json_decode login_required unauthorized forbidden rate_limited : ErrorCode
  upstream graphql bad_request not_found media_not_found captcha_required : ErrorCode
  geo_blocked restricted no_code : ErrorCode
  other : Text → ErrorCode

unfoldable pub should_rotate : ErrorCode → Bool
should_rotate connection = true
should_rotate json_decode = true
should_rotate login_required = true
should_rotate unauthorized = true
should_rotate forbidden = true
should_rotate rate_limited = true
should_rotate upstream = true
should_rotate _ = false

unfoldable pub is_transient : ErrorCode → Bool
is_transient not_found = false
is_transient media_not_found = false
is_transient geo_blocked = false
is_transient restricted = false
is_transient _ = true

unfoldable pub error_cache_seconds : ErrorCode → ℕ
error_cache_seconds code =
    if is_transient code then transient_error_cache_seconds else permanent_error_cache_seconds

pub record AppError : Type 0 where
  pub status : ℕ
  pub public_message : String
  pub code : ErrorCode
  pub cause : Option String
  pub ephemeral : Bool
  pub final : Bool
  pub card_code : ErrorCode
  pub card_title : String
  pub card_desc : String

unfoldable pub ig_err : ℕ → ErrorCode → String → AppError
ig_err status code message = record {
  status = status;
  public_message = message;
  code = code;
  cause = none;
  ephemeral = false;
  final = false;
  card_code = no_code;
  card_title = "";
  card_desc = "";
}

unfoldable pub ephemeral_err : ℕ → ErrorCode → String → AppError
unfolding ig_err
ephemeral_err status code message = record (ig_err status code message) { ephemeral = true }

unfoldable pub caused_err : ℕ → ErrorCode → String → String → AppError
unfolding ig_err
caused_err status code message cause = record (ig_err status code message) { cause = some cause }

unfoldable pub log_message : AppError → String
log_message e = elim e.cause [ none ↦ e.public_message | some cause ↦ cause ]

-- Why a context ended.
pub data ContextEnd : Type 0 where
  deadline_exceeded canceled : ContextEnd

unfoldable pub context_app_error : ContextEnd → AppError
unfolding ephemeral_err
context_app_error deadline_exceeded = ephemeral_err 504 connection "upstream deadline exceeded"
context_app_error canceled = ephemeral_err 499 no_code "cancelled"

-- `nil` is `none`.
unfoldable pub preferred_error : Option AppError → Option AppError → Option AppError
preferred_error none candidate = candidate
preferred_error (some current) none = some current
preferred_error (some current) (some candidate) =
    if is_transient current.code
      && (not (is_transient candidate.code) || current.ephemeral && not candidate.ephemeral)
    then some candidate
    else some current

-- ===== src/Errors/Policy.antt =====
-- How codes are treated: session rotation and the negative cache agree.
use oginstagram.Base.{◌≡◌, true, arith}
use oginstagram.Errors.{ErrorCode, should_rotate, is_transient, error_cache_seconds}
use oginstagram.Config.{transient_error_cache_seconds}

-- A code that marks a session bad says nothing about the content: it is cached for the short time.
pub should_rotate-cache :
    (c : ErrorCode)
    → should_rotate c ≡ true
    → (is_transient c ≡ true) × (error_cache_seconds c ≡ transient_error_cache_seconds)
unfolding should_rotate is_transient error_cache_seconds
should_rotate-cache c h = ground arith

-- ===== src/Errors/Card.antt =====
-- server/errors.go, `errorCard`: what a card says of an error.
use oginstagram.Base.{
  ◌≡◌, refl, ap, ◌≢◌, ℕ, [], ◌∷◌, ◌↔◌, ◌++◌, false, Option, none, some, arith, if◌then◌else◌,
  Bool-cases, inl, inr,
}
use oginstagram.Base.Text.{Text, codes, text_eq}
use oginstagram.Errors.{ErrorCode, geo_blocked, restricted, is_transient, error_cache_seconds}
use oginstagram.Config.{transient_error_cache_seconds}

unfoldable pub post_card : ErrorCode → Text × Text
post_card geo_blocked =
    (codes "Post unavailable", codes "This post isn't available in this region.")
post_card restricted = (
  codes "Post unavailable",
  codes "This post is restricted by Instagram (age or audience limit).",
)
post_card _ = (
  codes "Post unavailable",
  codes "This post isn't available - it may be deleted, set to private, or the link is incorrect.",
)

-- The title and the description.
unfoldable pub error_card : Text → ErrorCode → Text × Text
error_card kind code =
    if is_transient code
    then (
      codes "Temporarily unavailable",
      codes "Couldn't load this " ++ kind ++ codes " right now. Please try again in a moment.",
    )
    else (if text_eq kind (codes "profile")
        then (
          codes "Account unavailable",
          codes
              "This account isn't available - it may not exist, be deactivated, or the username is incorrect.",
        )
        else (if text_eq kind (codes "story")
            then (
              codes "Story unavailable",
              codes
                  "This story isn't available - stories expire after 24 hours, and it may also be from a private account or the link may be incorrect.",
            )
            else post_card code))

abbrev first_byte : Text → Option ℕ
first_byte [] = none
first_byte (c ∷ s) = some c

post_title : (code : ErrorCode) → (post_card code).0 ≡ codes "Post unavailable"
unfolding post_card
post_title geo_blocked = refl
post_title restricted = refl
post_title _ = refl

titles :
    (kind : Text) (code : ErrorCode)
    → is_transient code ≡ false
    → first_byte (error_card kind code).0 ≢ some b'T'
unfolding error_card
titles kind code lasting = ground (arith, lasting, post_title code)

-- A card says that something is unavailable for the moment exactly where the failure is cached for the
-- short time.
pub error_card-cache :
    (kind : Text) (code : ErrorCode)
    → ((error_card kind code).0 ≡ codes "Temporarily unavailable")
      ↔ (error_cache_seconds code ≡ transient_error_cache_seconds)
unfolding error_card error_cache_seconds
error_card-cache kind code = elim (Bool-cases (is_transient code)) [
  | inl passing ↦ (λ h. rw passing refl, λ h. rw passing refl)
  | inr lasting ↦
      (λ h. absurd (titles kind code lasting (ap first_byte h)), λ h. ground (arith, lasting))
]

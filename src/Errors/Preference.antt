-- ===== src/Errors/Preference.antt =====
-- What `preferredError` keeps of two failures.
use oginstagram.Base.{
  ℕ, ◌≡◌, refl, ap, ◌∙◌, Option, none, some, List, [], ◌∷◌, arith, max, ltb, if◌then◌else◌,
}
use oginstagram.Errors.{AppError, is_transient, preferred_error}

-- A verdict on the content, above a real upstream failure, above a failure of the program's own.
abbrev pub rank : Option AppError → ℕ
rank none = 0
rank (some e) = if is_transient e.code then if e.ephemeral then 1 else 2 else 3

-- The second error is kept where it ranks higher, and the first otherwise; so the kept error has
-- the higher of the two ranks.
pub preferred_error-rank :
    (c d : Option AppError)
    → (preferred_error c d ≡ (if ltb (rank c) (rank d) then d else c))
      × (rank (preferred_error c d) ≡ max (rank c) (rank d))
unfolding preferred_error
preferred_error-rank none none = ground arith
preferred_error-rank none (some d) = ground arith
preferred_error-rank (some c) none = ground arith
preferred_error-rank (some c) (some d) = ground arith

-- The failures of a race, combined in the order in which they arrive.
abbrev pub combine : Option AppError → List AppError → Option AppError
combine last [] = last
combine last (e ∷ es) = combine (preferred_error last (some e)) es

abbrev pub best : ℕ → List AppError → ℕ
best r [] = r
best r (e ∷ es) = best (max r (rank (some e))) es

-- However the failures of a race arrive, the one that is left has the highest rank among them.
pub combine-rank :
    (last : Option AppError) (es : List AppError) → rank (combine last es) ≡ best (rank last) es
combine-rank last [] = refl
combine-rank last (e ∷ es) =
    combine-rank (preferred_error last (some e)) es
    ∙ ap (λ r. best r es) (preferred_error-rank last (some e)).1

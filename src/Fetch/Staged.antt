-- ===== src/Fetch/Staged.antt =====
-- server/fetch.go, `stagedFetch`: sources race on a schedule, and a failure pulls the next one in.
-- One event is one case of the `select`; logging and the sources' own work are left out. A source that
-- panics is one that fails with an ephemeral error.
pub mod Order
use oginstagram.Base.{
  ℕ, zero, suc, ◌+◌, ◌-◌, Bool, true, false, not, ◌||◌, ◌&&◌, List, [], ◌∷◌, Option, none, some,
  leb, ◌==◌, if◌then◌else◌,
}
use oginstagram.Errors.{
  AppError, ContextEnd, is_transient, connection, ephemeral_err, context_app_error, preferred_error,
}

pub data Result {ℓ} (V : Type ℓ) : Type ℓ where
  success : V → Result V
  failure : AppError → Result V

-- What the loop wakes up for: the parent context ended, the timer of the next source, or the result
-- of a source. The flag says whether the context has ended by then, although that case was not chosen.
pub data Event {ℓ} (V : Type ℓ) : Type ℓ where
  cut : ContextEnd → Event V
  fires : Bool → Event V
  arrives : Bool → Result V → Event V

pub record Race : Type 0 where
  pub sources : ℕ
  pub next : ℕ
  pub pending : ℕ
  pub last_err : Option AppError

-- A race that goes on, or the answer of `stagedFetch`.
pub data Progress {ℓ} (V : Type ℓ) : Type ℓ where
  runs : Race → Progress V
  answers : Result V → Progress V

unfoldable pub start : Bool → Race → Race
start ended r =
    if leb r.sources r.next || ended
    then r
    else record r { next = r.next + 1; pending = r.pending + 1 }

-- `start()` and `arm()` of a new race.
unfoldable pub begin : ℕ → Bool → Race
begin sources ended =
    start ended (record { sources = sources; next = 0; pending = 0; last_err = none })

abbrev pub default_error : AppError
default_error = ephemeral_err 502 connection "upstream fetch failed"

unfoldable pub final_error : Option AppError → AppError
final_error none = default_error
final_error (some e) = e

-- A verdict on the content stands even where the context ended first.
unfoldable pub cut_error : Option AppError → ContextEnd → AppError
cut_error none end = context_app_error end
cut_error (some e) end = if not (is_transient e.code) then e else context_app_error end

module _ {ℓ} {V : Type ℓ} where
  -- The condition of the loop.
  unfoldable pub continue : Race → Progress V
  continue r = if r.pending == 0 then answers (failure (final_error r.last_err)) else runs r

  unfoldable pub step : Race → Event V → Progress V
  step r (cut end) = answers (failure (cut_error r.last_err end))
  step r (fires ended) = continue (start ended r)
  step r (arrives ended (success v)) = answers (success v)
  step r (arrives ended (failure e)) =
      if e.final
      then answers (failure e)
      else continue (
          start ended
            (record r { pending = r.pending - 1; last_err = preferred_error r.last_err (some e) }))

  -- Events behind the answer are not seen.
  unfoldable pub run : Progress V → List (Event V) → Progress V
  run p [] = p
  run (answers a) (x ∷ xs) = answers a
  run (runs r) (x ∷ xs) = run (step r x) xs

  unfoldable pub staged_fetch : ℕ → Bool → List (Event V) → Progress V
  staged_fetch sources ended events = run (continue (begin sources ended)) events

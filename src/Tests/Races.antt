-- ===== src/Tests/Races.antt =====
-- A staged fetch and the bot limiter on concrete inputs.
use oginstagram.Base.{ℕ, ◌+◌, ◌≤◌, ◌≡◌, refl, true, false, List, [], ◌∷◌, none, some, arith}
use oginstagram.Base.Text.{Text, codes, text_eq}
use oginstagram.Base.Assoc.{lookup}
use oginstagram.Config.{minute, hour, bot_hourly_limit}
use oginstagram.Errors.{AppError, ig_err, caused_err, not_found, connection}
use oginstagram.Errors.Preference.{rank, combine, best}
use oginstagram.Fetch.Staged.{success, failure, Event, fires, arrives, staged_fetch, final_error}
use oginstagram.Fetch.Staged.Order.{
  outcome, answer, arrivals, staged_fetch-answer, staged_fetch-success, staged_fetch-only_failures,
}
use oginstagram.Gateway.Bots
use oginstagram.Gateway.Bots.{Limiter, roll, admit}
use oginstagram.Gateway.Bots.Budget.{granted, granted-limit, admit-retry}

abbrev refused : AppError
refused = caused_err 502 connection "Connection failed." "dial"

abbrev missing : AppError
missing = ig_err 404 not_found "Post not found."

abbrev won : List (Event ℕ)
won = arrives false (failure refused) ∷ fires false ∷ arrives false (success 7) ∷ []

abbrev lost : List (Event ℕ)
lost = arrives false (failure refused) ∷ fires false ∷ arrives false (failure missing) ∷ []

staged_fetch-answer_example : outcome (staged_fetch 3 false won) ≡ answer 3 none (arrivals won)
staged_fetch-answer_example = staged_fetch-answer 3 won (refl, (refl, (refl, tt)))

staged_fetch-success_example : outcome (staged_fetch 3 false won) ≡ some (success 7)
unfolding caused_err ig_err
staged_fetch-success_example =
    staged_fetch-success 3 won (refused ∷ []) 7 [] (refl, (refl, (refl, tt))) refl (refl, tt)
      (omega arith)

staged_fetch-only_failures_example :
    (outcome (staged_fetch 2 false lost)
      ≡ some (failure (final_error (combine none (refused ∷ missing ∷ [])))))
    × (rank (combine none (refused ∷ missing ∷ [])) ≡ best 0 (refused ∷ missing ∷ []))
unfolding caused_err ig_err
staged_fetch-only_failures_example =
    staged_fetch-only_failures 2 lost (refused ∷ missing ∷ []) (refl, (refl, (refl, tt))) refl
      (refl, (refl, tt)) refl

abbrev same_visitor : Text → Text
same_visitor ip = ip

granted-limit_example :
    granted same_visitor
      (codes "1.2.3.4")
      0
      Bots.init
      ((codes "1.2.3.4", minute) ∷ (codes "1.2.3.5", minute) ∷ (codes "1.2.3.4", hour) ∷ [])
    ≤ bot_hourly_limit
granted-limit_example =
    granted-limit same_visitor (codes "1.2.3.4") 0
      ((codes "1.2.3.4", minute) ∷ (codes "1.2.3.5", minute) ∷ (codes "1.2.3.4", hour) ∷ [])
      (omega arith, (omega arith, (omega arith, tt)))

-- A limiter whose visitor has used the whole hour.
abbrev spent : Limiter
spent = record { hour = 1; counts = some ((codes "1.2.3.4", 50) ∷ []) }

admit-retry_example :
    (1 ≤ (admit same_visitor spent (codes "1.2.3.4") (hour + minute)).2)
    × ((admit same_visitor spent (codes "1.2.3.4") (hour + minute)).2 ≤ hour)
    × ((admit same_visitor
          (admit same_visitor spent (codes "1.2.3.4") (hour + minute)).0
          (codes "1.2.3.4")
          (hour + minute + (admit same_visitor spent (codes "1.2.3.4") (hour + minute)).2)).1
        ≡ true)
unfolding admit roll lookup text_eq
admit-retry_example = admit-retry same_visitor spent (codes "1.2.3.4") (hour + minute) refl

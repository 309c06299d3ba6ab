-- ===== src/Fetch/Staged/Order.antt =====
-- The answer of a staged fetch depends only on the order in which its sources answer.
use oginstagram.Base.{
  ℕ, zero, suc, ◌+◌, ◌-◌, ◌≤◌, ◌<◌, ◌≡◌, ◌≢◌, refl, sym, ap, ◌∙◌, false, List, [], ◌∷◌, ◌++◌, map,
  length, Option, none, some, ◌==◌, if◌then◌else◌, arith, All, append-nil, Bool-cases, inl, inr,
  ◌⊎◌,
}
use oginstagram.Errors.{AppError, preferred_error}
use oginstagram.Errors.Preference.{rank, combine, best, combine-rank}
use oginstagram.Fetch.Staged.{
  Result, success, failure, Event, cut, fires, arrives, Race, Progress, runs, answers, start, begin,
  final_error, continue, step, run, staged_fetch,
}

-- A race waits for a source, or has started all of them.
abbrev IsBusy : Race → Type 0
IsBusy r = (r.next ≤ r.sources) × ((r.pending ≢ 0) ⊎ (r.next ≡ r.sources))

abbrev left : Race → ℕ
left r = r.sources - r.next + r.pending

start-IsBusy :
    (r : Race)
    → IsBusy r
    → IsBusy (start false r)
      × (left (start false r) ≡ left r)
      × ((start false r).last_err ≡ r.last_err)
unfolding start
start-IsBusy r (low, busy) = ground arith

failed : Race → AppError → Race
failed r e =
    start false
      (record r { pending = r.pending - 1; last_err = preferred_error r.last_err (some e) })

failed-IsBusy :
    (r : Race) (e : AppError) (k : ℕ)
    → IsBusy r
    → left r ≡ suc k
    → r.pending ≢ 0
    → IsBusy (failed r e)
      × (left (failed r e) ≡ k)
      × ((failed r e).last_err ≡ preferred_error r.last_err (some e))
unfolding start failed
failed-IsBusy r e k (low, busy) h waits = ground arith

module _ {ℓ} {V : Type ℓ} where
  -- An event of a race whose context has not ended.
  abbrev pub IsCalm : Event V → Type 0
  IsCalm (cut end) = ⊥
  IsCalm (fires ended) = ended ≡ false
  IsCalm (arrives ended r) = ended ≡ false

  abbrev pub arrivals : List (Event V) → List (Result V)
  arrivals [] = []
  arrivals (cut end ∷ es) = arrivals es
  arrivals (fires ended ∷ es) = arrivals es
  arrivals (arrives ended r ∷ es) = r ∷ arrivals es

  abbrev pub outcome : Progress V → Option (Result V)
  outcome (runs r) = none
  outcome (answers a) = some a

  -- The answer of `left` sources whose results come in this order, behind the failure `last`: the
  -- first success or final failure, or else what is preferred among all failures.
  abbrev pub answer : ℕ → Option AppError → List (Result V) → Option (Result V)
  answer zero last rs = some (failure (final_error last))
  answer (suc left) last [] = none
  answer (suc left) last (success v ∷ rs) = some (success v)
  answer (suc left) last (failure e ∷ rs) =
      if e.final then some (failure e) else answer left (preferred_error last (some e)) rs

  run-answers : (a : Result V) (es : List (Event V)) → run (answers a) es ≡ answers a
  unfolding run
  run-answers a [] = refl
  run-answers a (e ∷ es) = refl

  continue-answer :
      (es : List (Event V)) (r : Race) (k : ℕ)
      → All IsCalm es
      → IsBusy r
      → left r ≡ k
      → outcome (run (continue r) es) ≡ answer k r.last_err (arrivals es)
  unfolding run step continue failed
  continue-answer es r zero calm busy h =
      let idle : r.pending ≡ 0 = omega (arith, h) in
      rw (idle, run-answers (failure (final_error r.last_err)) es) refl
  continue-answer [] r (suc k) calm busy h =
      let waits : (r.pending == 0) ≡ false = ground arith in rw waits refl
  continue-answer (cut end ∷ es) r (suc k) (calm, rest) busy h = absurd calm
  continue-answer (fires ended ∷ es) r (suc k) (calm, rest) busy h =
      let waits : (r.pending == 0) ≡ false = ground arith in
      let (again, same, kept) = start-IsBusy r busy in
      rw (waits, calm)
        (continue-answer es (start false r) (suc k) rest again (same ∙ h)
          ∙ ap (λ l. answer (suc k) l (arrivals es)) kept)
  continue-answer (arrives ended (success v) ∷ es) r (suc k) (calm, rest) busy h =
      let waits : (r.pending == 0) ≡ false = ground arith in
      rw (waits, run-answers (success v) es) refl
  continue-answer (arrives ended (failure e) ∷ es) r (suc k) (calm, rest) busy h =
      let waits : (r.pending == 0) ≡ false = ground arith in
      elim (Bool-cases e.final) [
        | inl final ↦ simp (waits, final, run-answers (failure e) es)
        | inr other ↦
            let (again, less, kept) = failed-IsBusy r e k busy h (λ z. ground arith) in
            simp (waits, calm, other)
              (continue-answer es (failed r e) k rest again less
                ∙ ap (λ l. answer k l (arrivals es)) kept)
      ]

  -- Whatever the timers do, a race of `n` sources whose context does not end has the answer that the
  -- order of the results determines: none before `n` results unless one decides, the first success or
  -- final failure where it comes before, and otherwise the preferred one of all failures.
  pub staged_fetch-answer :
      (n : ℕ) (es : List (Event V))
      → All IsCalm es
      → outcome (staged_fetch n false es) ≡ answer n none (arrivals es)
  unfolding staged_fetch begin start
  staged_fetch-answer n es calm =
      let fresh : Race = record { sources = n; next = 0; pending = 0; last_err = none } in
      let kept : (start false fresh).last_err ≡ none = ground arith in
      continue-answer es (start false fresh) n calm (ground arith) (ground arith)
      ∙ ap (λ l. answer n l (arrivals es)) kept

  answer-failures :
      (last : Option AppError) (fs : List AppError) (rs : List (Result V)) (m n : ℕ)
      → All (λ e. e.final ≡ false) fs
      → m ≡ length fs + n
      → answer m last (map failure fs ++ rs) ≡ answer n (combine last fs) rs
  answer-failures last [] rs m n h e =
      let same : m ≡ n = omega (arith, e) in ap (λ k. answer k last rs) same
  answer-failures last (f ∷ fs) rs zero n h e = absurd (omega (arith, e))
  answer-failures last (f ∷ fs) rs (suc m) n (h, hs) e =
      simp h (answer-failures (preferred_error last (some f)) fs rs m n hs (omega (arith, e)))

  -- A source that succeeds before any source fails finally decides the race, however many failed
  -- before.
  pub staged_fetch-success :
      (n : ℕ) (es : List (Event V)) (fs : List AppError) (v : V) (rs : List (Result V))
      → All IsCalm es
      → arrivals es ≡ map failure fs ++ success v ∷ rs
      → All (λ e. e.final ≡ false) fs
      → length fs < n
      → outcome (staged_fetch n false es) ≡ some (success v)
  staged_fetch-success n es fs v rs calm come h few =
      staged_fetch-answer n es calm
      ∙ ap (answer n none) come
      ∙ answer-failures none fs (success v ∷ rs) n (suc (n - length fs - 1)) h (omega (arith, few))

  -- Where all sources fail, none of them finally, the race ends with the failure that is preferred
  -- among them, whose rank is the highest.
  pub staged_fetch-only_failures :
      (n : ℕ) (es : List (Event V)) (fs : List AppError)
      → All IsCalm es
      → arrivals es ≡ map failure fs
      → All (λ e. e.final ≡ false) fs
      → length fs ≡ n
      → (outcome (staged_fetch n false es) ≡ some (failure (final_error (combine none fs))))
        × (rank (combine none fs) ≡ best 0 fs)
  staged_fetch-only_failures n es fs calm come h all = (
    staged_fetch-answer n es calm
        ∙ ap (answer n none) (come ∙ sym (append-nil (map failure fs)))
        ∙ answer-failures none fs [] n 0 h (omega (arith, all)),
    combine-rank none fs,
  )

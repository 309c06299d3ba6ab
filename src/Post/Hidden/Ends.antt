-- ===== src/Post/Hidden/Ends.antt =====
-- server/app.go, `hiddenPost`: `pending` counts the started sources, so the loop ends.
use Prim.Native.String.{String}
use oginstagram.Base.{
  ℕ, suc, ◌+◌, ◌-◌, ◌*◌, ◌≡◌, ◌≤◌, refl, Bool, true, false, not, List, [], ◌∷◌, Option, none, some,
  is_some, length, ◌==◌, ◌&&◌, if◌then◌else◌, arith, both_branches,
}
use oginstagram.Base.Int.{int_eq, pos}
use oginstagram.Base.Strings.{is_empty}
use oginstagram.Base.Text.{Text}
use oginstagram.Errors.{AppError}
use oginstagram.Fetch.Json.{Gjson}
use oginstagram.Fetch.Staged.{success, failure}
use oginstagram.Models.{Post}
use oginstagram.Models.Valid.{Url}
use oginstagram.Post.Hidden.{
  Jobs, Hunt, Turn, Event, Answer, Progress, runs, answers, helper_done, oembed_done, og_done,
  dc_done, missing_done, ended, follow_og, follow_missing, init, settle, continue, step, run,
  hidden_post, on_oembed, on_verdict, retry_dc, on_og, follow_gate,
}
use oginstagram.Post.Oembed.{OembedOutcome, Verdict, card, refused}

abbrev pub bit : Bool → ℕ
bit true = 1
bit false = 0

-- The sources that `pending` counts, all but the helper.
unfoldable pub waiting : Jobs → ℕ
waiting j = bit j.oembed + bit j.og + bit j.dc + bit j.missing

-- The invariant of the loop: `pending` is the number of the sources still out, the helper is out until
-- its error is heard, and follow-ups start only behind oEmbed's answer.
pub record Counted (h : Hunt) : Type 0 where
  pub pending_waiting : h.pending ≡ waiting h.jobs
  pub helper_heard : is_some h.helper_err ≡ not h.jobs.helper
  pub before_oembed : h.jobs.oembed ≡ true → waiting h.jobs ≡ 1

-- An event that can happen: the source is out, or the context ends.
unfoldable pub CanHappen : Jobs → Event → Type 0
CanHappen j (helper_done r) = j.helper ≡ true
CanHappen j (oembed_done o) = j.oembed ≡ true
CanHappen j (og_done p) = j.og ≡ true
CanHappen j (dc_done p) = j.dc ≡ true
CanHappen j (missing_done b) = j.missing ≡ true
CanHappen j (ended end late) = Unit

-- How many events can still come: oEmbed brings two follow-ups at most.
unfoldable pub fuel : Jobs → ℕ
unfolding waiting
fuel j = bit j.helper + bit j.oembed * 2 + waiting j

-- A loop that has answered, or goes on with some source out and at most `n` events to come.
unfoldable pub Below : ℕ → Progress → Type 0
unfolding fuel
Below n (answers a) = Unit
Below n (runs h) = Counted h × (1 ≤ fuel h.jobs) × (fuel h.jobs ≤ n)

module _ (json : Gjson) (parse_url : Text → Option Url) (shared_by : String → Text) where
  module _ (post_ttl : Post → ℕ) (has_helper has_v6 : Bool) (shortcode : Text) where
    Below-if :
        (n : ℕ) (b : Bool) (a : Answer) (p : Progress)
        → (b ≡ false → Below n p)
        → Below n (if b then answers a else p)
    unfolding Below
    Below-if n true a p h = tt
    Below-if n false a p h = h refl

    settle_lem :
        (n : ℕ) (o : Option AppError) (h : Hunt)
        → h.helper_err ≡ o
        → Counted h
        → fuel h.jobs ≤ n
        → Below n (settle json parse_url shared_by post_ttl has_helper has_v6 shortcode o h)
    unfolding settle Below fuel waiting
    settle_lem n none h e c small = let heard = c.helper_heard in (c, ground arith, small)
    settle_lem n (some err) h e c small =
        let counted = c.pending_waiting in
        Below-if n (h.pending == 0) _ (runs h) (λ more. (c, ground arith, small))

    continue_lem :
        (n : ℕ) (h : Hunt)
        → h.pending ≡ waiting h.jobs
        → is_some h.helper_err ≡ not h.jobs.helper
        → (h.jobs.oembed ≡ true → waiting h.jobs ≡ 1)
        → fuel h.jobs ≤ n
        → Below n (continue json parse_url shared_by post_ttl has_helper has_v6 shortcode h)
    unfolding continue
    continue_lem n h pending heard before small =
        settle_lem n h.helper_err h refl
          (record { pending_waiting = pending; helper_heard = heard; before_oembed = before }) small

    -- What holds behind oEmbed's answer: no other source is out, and two events more than the helper's may
    -- come.
    Answered : ℕ → Hunt → Type 0
    Answered n h =
        (h.pending ≡ 0)
        × (is_some h.helper_err ≡ not h.jobs.helper)
        × (waiting h.jobs ≡ 0)
        × (2 + bit h.jobs.helper ≤ n)

    retry_dc_lem :
        (n : ℕ) (h : Hunt)
        → Answered n h
        → Below n (
            continue json parse_url shared_by post_ttl has_helper has_v6 shortcode
              (retry_dc has_v6 h))
    unfolding Answered waiting fuel
    retry_dc_lem n h (none_out, heard, idle, small) =
        both_branches
          (λ (x : Hunt).
            Below n (continue json parse_url shared_by post_ttl has_helper has_v6 shortcode x))
          has_v6 (record h { pending = h.pending + 1; jobs = record h.jobs { dc = true } }) h
          (continue_lem n (record h { pending = h.pending + 1; jobs = record h.jobs { dc = true } })
            (ground arith) heard (λ e. ground arith) (ground arith))
          (continue_lem n h (ground arith) heard (λ e. ground arith) (ground arith))

    -- No follow-up, or one of the three.
    idle_lem :
        (n : ℕ) (h : Hunt)
        → Answered n h
        → Below n (continue json parse_url shared_by post_ttl has_helper has_v6 shortcode h)
    unfolding Answered waiting fuel
    idle_lem n h (none_out, heard, idle, small) =
        continue_lem n h (ground arith) heard (λ e. ground arith) (ground arith)

    follow_og_lem :
        (n : ℕ) (h : Hunt)
        → Answered n h
        → Below n
            (continue json parse_url shared_by post_ttl has_helper has_v6 shortcode (follow_og h))
    unfolding Answered waiting fuel
    follow_og_lem n h (none_out, heard, idle, small) =
        continue_lem n (follow_og h) (ground arith) heard (λ e. ground arith) (ground arith)

    follow_missing_lem :
        (n : ℕ) (h : Hunt)
        → Answered n h
        → Below n (
            continue json parse_url shared_by post_ttl has_helper has_v6 shortcode
              (follow_missing h))
    unfolding Answered waiting fuel
    follow_missing_lem n h (none_out, heard, idle, small) =
        continue_lem n (follow_missing h) (ground arith) heard (λ e. ground arith) (ground arith)

    follow_both_lem :
        (n : ℕ) (h : Hunt)
        → Answered n h
        → Below n (
            continue json parse_url shared_by post_ttl has_helper has_v6 shortcode
              (retry_dc has_v6 (follow_og h)))
    unfolding Answered waiting fuel
    follow_both_lem n h (none_out, heard, idle, small) =
        both_branches
          (λ (x : Hunt).
            Below n (continue json parse_url shared_by post_ttl has_helper has_v6 shortcode x))
          has_v6
          (record h { pending = h.pending + 1 + 1; jobs = record h.jobs { og = true; dc = true } })
          (follow_og h)
          (continue_lem n
            (record h {
              pending = h.pending + 1 + 1;
              jobs = record h.jobs { og = true; dc = true };
            })
            (ground arith) heard (λ e. ground arith) (ground arith))
          (continue_lem n (follow_og h) (ground arith) heard (λ e. ground arith) (ground arith))

    follow_gate_lem :
        (n : ℕ) (h : Hunt) (body : Text)
        → Answered n h
        → Below n (
            continue json parse_url shared_by post_ttl has_helper has_v6 shortcode
              (follow_gate json parse_url shared_by post_ttl has_helper has_v6 shortcode body h))
    unfolding follow_gate
    follow_gate_lem n h body a =
        both_branches
          (λ (x : Hunt).
            Below n (continue json parse_url shared_by post_ttl has_helper has_v6 shortcode x))
          (int_eq (json.int_at body "gating_type_thrift") (pos 3)) (follow_og h) _
          (follow_og_lem n h a)
          (both_branches
            (λ (x : Hunt).
              Below n (continue json parse_url shared_by post_ttl has_helper has_v6 shortcode x))
            (int_eq (json.int_at body "gating_type_thrift") (pos 2)) (retry_dc has_v6 (follow_og h))
            h (follow_both_lem n h a) (idle_lem n h a))

    on_verdict_lem :
        (n : ℕ) (h : Hunt) (o : OembedOutcome) (v : Verdict)
        → Answered n h
        → Below n
            (on_verdict json parse_url shared_by post_ttl has_helper has_v6 shortcode h o
              v).progress
    unfolding on_verdict waiting fuel follow_gate Answered
    on_verdict_lem n h o (card p) a = retry_dc_lem n (record h { partial_post = some p }) a
    on_verdict_lem n h o (refused err) a =
        both_branches (λ (t : Turn). Below n t.progress) (not (is_empty err.card_title)) _ _
          (follow_gate_lem n (record h { gate = some err }) o.body a)
          (both_branches (λ (t : Turn). Below n t.progress) (o.ok && o.status == 404) _ _
            (follow_missing_lem n h a) (idle_lem n h a))

    step_lem :
        (n : ℕ) (h : Hunt) (e : Event)
        → Below (suc n) (runs h)
        → CanHappen h.jobs e
        → Below n (step json parse_url shared_by post_ttl has_helper has_v6 shortcode h e).progress
    unfolding step on_oembed on_og Below CanHappen fuel waiting Answered
    step_lem n h (helper_done (success p)) live can = tt
    step_lem n h (helper_done (failure e)) live can =
        let counted = live.0.pending_waiting in
        continue_lem n (record h { helper_err = some e; jobs = record h.jobs { helper = false } })
          counted refl live.0.before_oembed (ground arith)
    step_lem n h (oembed_done o) live can =
        let counted = live.0.pending_waiting in
        let before = live.0.before_oembed can in
        on_verdict_lem n
          (record h {
            pending = h.pending - 1;
            oembed_status = o.status;
            jobs = record h.jobs { oembed = false };
          })
          o _ (ground arith, live.0.helper_heard, ground arith, ground arith)
    step_lem n h (og_done none) live can =
        let counted = live.0.pending_waiting in
        let before = live.0.before_oembed in
        continue_lem n (record h { pending = h.pending - 1; jobs = record h.jobs { og = false } })
          (ground arith) live.0.helper_heard (λ e. ground arith) (ground arith)
    step_lem n h (og_done (some p)) live can =
        let counted = live.0.pending_waiting in
        let before = live.0.before_oembed in
        continue_lem n
          (record h {
            partial_post = some p;
            pending = h.pending - 1;
            jobs = record h.jobs { og = false };
          })
          (ground arith) live.0.helper_heard (λ e. ground arith) (ground arith)
    step_lem n h (dc_done (some p)) live can = tt
    step_lem n h (dc_done none) live can =
        let counted = live.0.pending_waiting in
        let before = live.0.before_oembed in
        continue_lem n (record h { pending = h.pending - 1; jobs = record h.jobs { dc = false } })
          (ground arith) live.0.helper_heard (λ e. ground arith) (ground arith)
    step_lem n h (missing_done true) live can = tt
    step_lem n h (missing_done false) live can =
        let counted = live.0.pending_waiting in
        let before = live.0.before_oembed in
        continue_lem n
          (record h { pending = h.pending - 1; jobs = record h.jobs { missing = false } })
          (ground arith) live.0.helper_heard (λ e. ground arith) (ground arith)
    step_lem n h (ended end late) live can = tt

    -- Events that can happen one behind the other; those behind the answer are not seen.
    unfoldable pub Possible : Progress → List Event → Type 0
    Possible p [] = Unit
    Possible (answers a) (e ∷ es) = Unit
    Possible (runs h) (e ∷ es) =
        CanHappen h.jobs e
        × Possible (step json parse_url shared_by post_ttl has_helper has_v6 shortcode h e).progress
            es

    run_lem :
        (k : ℕ) (p : Progress) (events : List Event)
        → Below (k + length events) p
        → Possible p events
        → Below k (run json parse_url shared_by post_ttl has_helper has_v6 shortcode p events)
    unfolding run Possible Below
    run_lem k (answers a) [] live can = tt
    run_lem k (runs h) [] live can = (live.0, live.1, omega (arith, live.2))
    run_lem k (answers a) (e ∷ es) live can = tt
    run_lem k (runs h) (e ∷ es) (counted, out, small) (can, rest) =
        run_lem k (step json parse_url shared_by post_ttl has_helper has_v6 shortcode h e).progress
          es (step_lem (k + length es) h e (counted, out, omega (arith, small)) can) rest

    Below-zero : (p : Progress) → Below 0 p → (a : Answer) × (p ≡ answers a)
    unfolding Below
    Below-zero (answers a) live = (a, refl)
    Below-zero (runs h) (counted, out, small) = absurd (omega arith)

    -- A hunt that goes on behind some events waits for a source that is out, and `k` events at most are
    -- still to come.
    pub hidden_post-waits :
        (k : ℕ) (events : List Event)
        → Possible (runs init) events
        → 4 ≤ k + length events
        → Below k (hidden_post json parse_url shared_by post_ttl has_helper has_v6 shortcode events)
    unfolding hidden_post Below fuel waiting
    hidden_post-waits k events can enough =
        run_lem k (runs init) events
          (
            record { pending_waiting = refl; helper_heard = refl; before_oembed = λ e. refl },
            omega arith,
            enough,
          )
          can

    -- Whatever the sources say and in whatever order, the hunt has answered behind four events: the
    -- helper's, oEmbed's, and those of two follow-ups.
    pub hidden_post-ends :
        (events : List Event)
        → Possible (runs init) events
        → 4 ≤ length events
        → (a : Answer) × (hidden_post json parse_url shared_by post_ttl has_helper has_v6 shortcode
              events
            ≡ answers a)
    hidden_post-ends events can enough = Below-zero _ (hidden_post-waits 0 events can (omega arith))

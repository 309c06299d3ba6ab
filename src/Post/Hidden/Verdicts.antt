-- ===== src/Post/Hidden/Verdicts.antt =====
-- server/app.go, `hiddenPost`: what its answers rest on, and how long they may be kept.
use Prim.Native.String.{String}
use oginstagram.Base.{
  ℕ, ◌*◌, ◌≡◌, subst, sym, ◌∙◌, ◌≤◌, ◌⊎◌, inl, inr, refl, Bool, true, false, not, ◌&&◌, ◌||◌, List,
  [], ◌∷◌, Option, none, some, any, ◌==◌, if◌then◌else◌, both_branches, arith,
}
use oginstagram.Base.Int.{int_eq, pos}
use oginstagram.Base.Strings.{is_empty}
use oginstagram.Base.Text.{Text}
use oginstagram.Config.{second, permanent_error_cache_seconds}
use oginstagram.Errors.{
  AppError, ig_err, ephemeral_err, graphql, restricted, geo_blocked, is_transient,
  context_app_error, ContextEnd, deadline_exceeded, canceled,
}
use oginstagram.Fetch.Json.{Gjson}
use oginstagram.Fetch.Staged.{success, failure}
use oginstagram.Models.{Post}
use oginstagram.Models.Valid.{Url}
use oginstagram.Post.Hidden.{
  Hunt, Turn, Event, Answer, Progress, runs, answers, found, failed, helper_done, oembed_done,
  og_done, dc_done, missing_done, ended, init, settle, continue, step, run, hidden_post, on_oembed,
  on_verdict, retry_dc, follow_og, follow_missing, on_og, follow_gate, answer, answer_by,
  missing_error, partial_ttl, gate_or_retry, helper_asked, is_gate_code, asked_by_now, base_error,
}
use oginstagram.Post.Oembed.{
  OembedOutcome, Verdict, card, refused, oembed_verdict, oembed_verdict-refused,
}

-- The helper reached Instagram or says 404, or the media lookup finds nothing.
unfoldable pub conclusive : Event → Bool
unfolding helper_asked
conclusive (helper_done (failure e)) = helper_asked (some e) || e.status == 404
conclusive (missing_done b) = b
conclusive (ended end late) = late
conclusive _ = false

-- The post came whole, from the helper or through DC.
unfoldable pub Delivered : Post → List Event → Type 0
Delivered p [] = ⊥
Delivered p (e ∷ es) = (e ≡ helper_done (success p)) ⊎ (e ≡ dc_done (some p)) ⊎ Delivered p es

-- What an answer rests on, where `acc` tells that something conclusive came before the events: a post
-- that is persisted came whole, and with its own lifetime; another is kept for an hour at most; an error
-- that is kept for long needs something conclusive, where there is a helper.
unfoldable pub SoundFrom : (Post → ℕ) → Bool → Bool → Answer → List Event → Type 0
unfolding is_transient
SoundFrom post_ttl has_helper acc (found p ttl true) events =
    (ttl ≡ post_ttl p) × Delivered p events
SoundFrom post_ttl has_helper acc (found p ttl false) events =
    ttl ≤ permanent_error_cache_seconds * second
SoundFrom post_ttl has_helper acc (failed e) events =
    (is_transient e.code || not has_helper || acc || any conclusive events) ≡ true

unfoldable pub gate_ok : Option AppError → Bool
gate_ok none = true
gate_ok (some e) = is_transient e.code || is_gate_code e.code

-- The helper has said something conclusive.
unfoldable pub said : Option AppError → Bool
unfolding helper_asked
said none = false
said (some e) = helper_asked (some e) || e.status == 404

module _ (json : Gjson) (parse_url : Text → Option Url) (shared_by : String → Text) where
  module _ (post_ttl : Post → ℕ) (has_helper has_v6 : Bool) (shortcode : Text) where
    Sound : Bool → Answer → List Event → Type 0
    Sound = SoundFrom post_ttl has_helper

    After : Bool → Progress → List Event → Type 0
    unfolding Sound
    After acc (answers a) events = Sound acc a events
    After acc (runs h) events = (gate_ok h.gate ≡ true) × ((not (said h.helper_err) || acc) ≡ true)

    partial_ttl_lem :
        (h : Hunt) (p : Post) (e : AppError)
        → partial_ttl json parse_url shared_by post_ttl has_helper has_v6 shortcode h p e
          ≤ permanent_error_cache_seconds * second
    unfolding partial_ttl
    partial_ttl_lem h p e = ground arith

    gate_or_retry_lem :
        (asked acc : Bool) (gate : AppError) (events : List Event)
        → gate_ok (some gate) ≡ true
        → (not asked || acc) ≡ true
        → Sound acc (failed (gate_or_retry has_helper asked gate)) events
    unfolding Sound SoundFrom gate_or_retry gate_ok is_transient
    gate_or_retry_lem asked acc gate events ok said = ground arith

    missing_lem :
        (acc found_none helper_none : Bool) (events : List Event)
        → (not helper_none || acc) ≡ true
        → Sound acc
            (if found_none && helper_none then failed missing_error else failed base_error)
            events
    unfolding Sound SoundFrom is_transient ig_err
    missing_lem acc false helper_none events h = refl
    missing_lem acc true false events h = refl
    missing_lem acc true true events h = ground arith

    answer_lem :
        (acc asked : Bool) (post : Option Post) (gate : Option AppError) (h : Hunt) (e : AppError)
        (events : List Event)
        → gate_ok gate ≡ true
        → (not asked || acc) ≡ true
        → (not (e.status == 404) || acc) ≡ true
        → Sound acc
            (answer_by json parse_url shared_by post_ttl has_helper has_v6 shortcode post gate h
              asked e)
            events
    unfolding answer_by Sound SoundFrom is_transient
    answer_lem acc asked (some p) gate h e events ok asked_acc status_acc = partial_ttl_lem h p e
    answer_lem acc asked none (some gate) h e events ok asked_acc status_acc =
        gate_or_retry_lem asked acc gate events ok asked_acc
    answer_lem acc asked none none h e events ok asked_acc status_acc =
        missing_lem acc (h.oembed_status == 404) (e.status == 404) events status_acc

    settle_lem :
        (acc : Bool) (o : Option AppError) (h : Hunt) (events : List Event)
        → gate_ok h.gate ≡ true
        → h.helper_err ≡ o
        → (not (said o) || acc) ≡ true
        → After acc
            (settle json parse_url shared_by post_ttl has_helper has_v6 shortcode o h)
            events
    unfolding settle answer After said gate_ok
    settle_lem acc none h events ok eq quiet = (ok, rw eq refl)
    settle_lem acc (some e) h events ok eq heard =
        both_branches (λ (p : Progress). After acc p events) (h.pending == 0) _ (runs h)
          (answer_lem acc (helper_asked (some e)) h.partial_post h.gate h e events ok (ground arith)
            (ground arith))
          (ok, rw eq heard)

    continue_lem :
        (acc : Bool) (h : Hunt) (events : List Event)
        → gate_ok h.gate ≡ true
        → (not (said h.helper_err) || acc) ≡ true
        → After acc
            (continue json parse_url shared_by post_ttl has_helper has_v6 shortcode h)
            events
    unfolding continue
    continue_lem acc h events ok heard = settle_lem acc h.helper_err h events ok refl heard

    -- The follow-ups change neither the gate nor what the helper said.
    follow_gate_lem :
        (acc : Bool) (h : Hunt) (body : Text) (events : List Event)
        → gate_ok h.gate ≡ true
        → (not (said h.helper_err) || acc) ≡ true
        → After acc
            (continue json parse_url shared_by post_ttl has_helper has_v6 shortcode
              (follow_gate json parse_url shared_by post_ttl has_helper has_v6 shortcode body h))
            events
    unfolding follow_gate
    follow_gate_lem acc h body events ok heard =
        let Kept : Hunt → Type 0 =
          λ x. (gate_ok x.gate ≡ true) × ((not (said x.helper_err) || acc) ≡ true) in
        let kept : Kept
            (follow_gate json parse_url shared_by post_ttl has_helper has_v6 shortcode body h) =
          both_branches Kept (int_eq (json.int_at body "gating_type_thrift") (pos 3)) (follow_og h)
            _ (ok, heard)
            (both_branches Kept (int_eq (json.int_at body "gating_type_thrift") (pos 2))
              (retry_dc has_v6 (follow_og h)) h
              (both_branches Kept has_v6 _ (follow_og h) (ok, heard) (ok, heard)) (ok, heard)) in
        continue_lem acc _ events kept.0 kept.1

    verdict_gate_lem :
        (err : AppError)
        → ((err.code ≡ graphql) ⊎ (err.code ≡ restricted) ⊎ (err.code ≡ geo_blocked))
        → gate_ok (some err) ≡ true
    unfolding gate_ok is_transient
    verdict_gate_lem err (inl e) = rw e refl
    verdict_gate_lem err (inr (inl e)) = rw e refl
    verdict_gate_lem err (inr (inr e)) = rw e refl

    asked_lem :
        (acc late : Bool) (o : Option AppError)
        → (not (said o) || acc) ≡ true
        → (not (elim o [ none ↦ late | some e ↦ helper_asked (some e) ]) || (acc || late)) ≡ true
    unfolding said
    asked_lem acc late none heard = ground arith
    asked_lem acc late (some e) heard = ground arith

    context_lem :
        (acc : Bool) (end : ContextEnd)
        → (not ((context_app_error end).status == 404) || acc) ≡ true
    unfolding context_app_error ephemeral_err ig_err
    context_lem acc deadline_exceeded = refl
    context_lem acc canceled = refl

    on_verdict_lem :
        (acc : Bool) (h : Hunt) (o : OembedOutcome) (v : Verdict) (events : List Event)
        → oembed_verdict json parse_url shared_by o shortcode base_error ≡ v
        → gate_ok h.gate ≡ true
        → (not (said h.helper_err) || acc) ≡ true
        → After acc
            (on_verdict json parse_url shared_by post_ttl has_helper has_v6 shortcode h o
              v).progress
            events
    unfolding on_verdict ig_err
    on_verdict_lem acc h o (card p) events e ok heard =
        both_branches
          (λ (x : Hunt).
            After acc (continue json parse_url shared_by post_ttl has_helper has_v6 shortcode x)
              events)
          has_v6 _ (record h { partial_post = some p }) (continue_lem acc _ events ok heard)
          (continue_lem acc _ events ok heard)
    on_verdict_lem acc h o (refused err) events e ok heard =
        let refusal =
          oembed_verdict-refused json parse_url shared_by o shortcode base_error err e in
        both_branches (λ (t : Turn). After acc t.progress events) (not (is_empty err.card_title)) _
          _
          (follow_gate_lem acc (record h { gate = some err }) o.body events
            (verdict_gate_lem err refusal) heard)
          (both_branches (λ (t : Turn). After acc t.progress events) (o.ok && o.status == 404) _ _
            (continue_lem acc (follow_missing h) events ok heard)
            (continue_lem acc h events ok heard))

    step_lem :
        (acc : Bool) (h : Hunt) (e : Event) (events : List Event)
        → gate_ok h.gate ≡ true
        → (not (said h.helper_err) || acc) ≡ true
        → After
            (acc || conclusive e)
            (step json parse_url shared_by post_ttl has_helper has_v6 shortcode h e).progress
            (e ∷ events)
    unfolding step on_oembed on_og After conclusive said Sound SoundFrom answer Delivered
    step_lem acc h (helper_done (success p)) events ok heard = (refl, inl refl)
    step_lem acc h (helper_done (failure e)) events ok heard =
        continue_lem _ (record h { helper_err = some e; jobs = record h.jobs { helper = false } })
          (_ ∷ events) ok (ground arith)
    step_lem acc h (oembed_done o) events ok heard =
        on_verdict_lem _ _ o _ (_ ∷ events) refl ok (ground arith)
    step_lem acc h (og_done none) events ok heard = continue_lem _ _ (_ ∷ events) ok (ground arith)
    step_lem acc h (og_done (some p)) events ok heard =
        continue_lem _ _ (_ ∷ events) ok (ground arith)
    step_lem acc h (dc_done (some p)) events ok heard = (refl, inr (inl refl))
    step_lem acc h (dc_done none) events ok heard = continue_lem _ _ (_ ∷ events) ok (ground arith)
    step_lem acc h (missing_done true) events ok heard = ground arith
    step_lem acc h (missing_done false) events ok heard =
        continue_lem _ _ (_ ∷ events) ok (ground arith)
    step_lem acc h (ended end late) events ok heard =
        answer_lem _ (asked_by_now h late) h.partial_post h.gate h (context_app_error end)
          (_ ∷ events) ok (asked_lem acc late h.helper_err heard) (context_lem _ end)

    absorb :
        (acc : Bool) (e : Event) (a : Answer) (events : List Event)
        → Sound (acc || conclusive e) a (e ∷ events)
        → Sound acc a (e ∷ events)
    unfolding Sound SoundFrom
    absorb acc e (found p ttl true) events s = s
    absorb acc e (found p ttl false) events s = s
    absorb acc e (failed err) events s = ground arith

    later :
        (acc : Bool) (e : Event) (a : Answer) (events : List Event)
        → Sound acc a events
        → Sound acc a (e ∷ events)
    unfolding Sound SoundFrom Delivered
    later acc e (found p ttl true) events (same, d) = (same, inr (inr d))
    later acc e (found p ttl false) events s = s
    later acc e (failed err) events s = ground arith

    run-answers :
        (events : List Event) (b : Answer)
        → run json parse_url shared_by post_ttl has_helper has_v6 shortcode (answers b) events
          ≡ answers b
    unfolding run
    run-answers [] b = refl
    run-answers (e ∷ es) b = refl

    -- One event and what follows it.
    behind :
        (acc : Bool) (e : Event) (p : Progress) (es : List Event) (a : Answer)
        → After (acc || conclusive e) p (e ∷ es)
        → run json parse_url shared_by post_ttl has_helper has_v6 shortcode p es ≡ answers a
        → (After (acc || conclusive e) p es → Sound (acc || conclusive e) a es)
        → Sound acc a (e ∷ es)
    unfolding After
    behind acc e (answers b) es a after eq rest =
        let same : answers b ≡ answers a = sym (run-answers es b) ∙ eq in
        absorb acc e a es (subst (λ p. After (acc || conclusive e) p (e ∷ es)) same after)
    behind acc e (runs h) es a after eq rest =
        absorb acc e a es (later (acc || conclusive e) e a es (rest after))

    run_lem :
        (events : List Event) (acc : Bool) (p : Progress) (a : Answer)
        → After acc p events
        → run json parse_url shared_by post_ttl has_helper has_v6 shortcode p events ≡ answers a
        → Sound acc a events
    unfolding run After
    run_lem [] acc p a after eq = subst (λ p. After acc p []) eq after
    run_lem (e ∷ es) acc (answers b) a after eq = subst (λ p. After acc p (e ∷ es)) eq after
    run_lem (e ∷ es) acc (runs h) a (ok, heard) eq =
        let turn = step json parse_url shared_by post_ttl has_helper has_v6 shortcode h e in
        behind acc e turn.progress es a (step_lem acc h e es ok heard) eq
          (λ after. run_lem es (acc || conclusive e) turn.progress a after eq)

    -- Whatever the events, an answer of `hiddenPost` rests on them: only a post that the helper or DC
    -- delivered whole is persisted, with the lifetime of its links; a partial post is kept for an hour at
    -- most; and where there is a helper, an error that is kept for long follows only from a helper that
    -- reached Instagram or answered 404, or from a media lookup that finds nothing.
    pub hidden_post-Sound :
        (events : List Event) (a : Answer)
        → hidden_post json parse_url shared_by post_ttl has_helper has_v6 shortcode events
          ≡ answers a
        → SoundFrom post_ttl has_helper false a events
    unfolding hidden_post Sound After gate_ok said
    hidden_post-Sound events a e = run_lem events false (runs init) a (refl, refl) e

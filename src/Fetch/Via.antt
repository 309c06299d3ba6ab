-- ===== src/Fetch/Via.antt =====
-- server/fetch.go, `fetchViaProxy`, `fetchDC`, `fetchOn`, `isInstagramURL` and `loginWall`: over which network a
-- request goes, and which session is to blame for its failure. The requests are a parameter, from what
-- is sent to its reply; the random draw, the clock and the end of the context are arguments.
pub mod Legs
use Prim.Native.String.{String}
use oginstagram.Base.{
  ℕ, ◌+◌, ◌-◌, ◌*◌, ◌/◌, Bool, true, false, not, ◌&&◌, ◌||◌, List, [], ◌∷◌, ◌++◌, Option, none,
  some, is_some, min, ltb, leb, ◌==◌, if◌then◌else◌,
}
use oginstagram.Base.Text.{Text, codes, text_eq, has_prefix}
use oginstagram.Config.{second, ipv6_page_attempt_timeout}
use oginstagram.Errors.{AppError, should_rotate}
use oginstagram.Fetch.Gate.{Gate, allow, release, succeed, fail}

abbrev pub ipv6_attempt_timeout : ℕ
ipv6_attempt_timeout = second

abbrev pub dc_attempt_timeout : ℕ
dc_attempt_timeout = 2_500_000_000

abbrev pub dc_recheck_timeout : ℕ
dc_recheck_timeout = 2 * second

abbrev pub proxy_hung_after : ℕ
proxy_hung_after = 3 * second

-- What the source reads of the `url.URL` of a request.
pub record Target : Type 0 where
  pub scheme : Text
  pub hostname : Text
  pub path : Text

-- `none` is a URL that does not parse.
unfoldable pub is_instagram_url : Option Target → Bool
is_instagram_url none = false
is_instagram_url (some u) =
    text_eq u.scheme (codes "https")
    && (text_eq u.hostname (codes "www.instagram.com")
        || text_eq u.hostname (codes "i.instagram.com"))

unfoldable pub is_under : Text → Text → Bool
unfolding has_prefix text_eq
is_under path wall = text_eq path wall || has_prefix path (wall ++ codes "/")

unfoldable pub login_wall : Target → Bool
unfolding is_instagram_url is_under
login_wall u =
    is_instagram_url (some u)
    && (is_under u.path (codes "/accounts/login")
        || is_under u.path (codes "/challenge")
        || is_under u.path (codes "/checkpoint"))

-- The results of `fetchOn`.
pub record Reply : Type 0 where
  pub status : ℕ
  pub out : Text
  pub err : Option AppError

-- One request: over IPv6 within a budget, or over DC within a limit, taken as hung from a time on.
pub data Leg : Type 0 where
  v6 : ℕ → Leg
  dc : ℕ → ℕ → Leg

-- What `fetchViaProxy` returns, leaves of the gate, and sent.
pub record Outcome : Type 0 where
  pub reply : Reply
  pub gate : Gate
  pub sent : List Leg

-- `hung` and `rotated` of `fetchOn`.
unfoldable pub is_hung : Bool → Option AppError → ℕ → ℕ → Bool
is_hung advisory none elapsed hung_after = false
is_hung advisory (some e) elapsed hung_after =
    not advisory && e.status == 504 && leb hung_after elapsed

unfoldable pub is_to_blame : Bool → Option AppError → ℕ → ℕ → Bool
unfolding is_hung should_rotate
is_to_blame advisory none elapsed hung_after = false
is_to_blame advisory (some e) elapsed hung_after =
    is_hung advisory (some e) elapsed hung_after
    || not advisory && not e.ephemeral && should_rotate e.code

-- `observe` of `pool.done`.
unfoldable pub is_observed : Bool → Option AppError → ℕ → ℕ → Bool
unfolding is_hung
is_observed advisory err elapsed hung_after =
    not (is_some err) || is_hung advisory err elapsed hung_after

-- The budget of an IPv6 attempt leaves DC half of the time that is left.
unfoldable pub v6_budget : Bool → Option ℕ → ℕ
v6_budget page none = if page then ipv6_page_attempt_timeout else ipv6_attempt_timeout
v6_budget page (some left) =
    min (if page then ipv6_page_attempt_timeout else ipv6_attempt_timeout) (left / 2)

-- An answer about the content: the network is not to blame.
unfoldable pub is_content_error : AppError → ℕ → Bool
unfolding should_rotate
is_content_error e status = not e.ephemeral && not (should_rotate e.code) && ltb status 500

module _ (send : Leg → Reply) (recheck : Text → Bool) where
  abbrev pub last_leg : Leg
  last_leg = dc dc_attempt_timeout dc_attempt_timeout

  unfoldable pub fetch_dc : Gate → List Leg → Outcome
  fetch_dc g sent = record { reply = send last_leg; gate = g; sent = sent ++ last_leg ∷ [] }

  -- A good answer over IPv6 that asks for a second look, which stands only if it is good and clean.
  unfoldable pub after_answer : Gate → Leg → Reply → Outcome
  after_answer g leg got =
      if not (recheck got.out)
      then record { reply = got; gate = g; sent = leg ∷ [] }
      else (let again = send (dc dc_recheck_timeout proxy_hung_after) in
          record {
            reply = if not (is_some again.err) && not (recheck again.out) then again else got;
            gate = g;
            sent = leg ∷ dc dc_recheck_timeout proxy_hung_after ∷ [];
          })

  -- The `switch` behind the IPv6 attempt, by its error; `ended` tells that the context is over.
  unfoldable pub after_v6 : Gate → ℕ → Bool → Leg → Reply → Option AppError → Outcome
  unfolding after_answer fetch_dc is_content_error
  after_v6 g now true leg got err = record { reply = got; gate = release g; sent = leg ∷ [] }
  after_v6 g now false leg got none = after_answer (succeed g) leg got
  after_v6 g now false leg got (some e) =
      if is_content_error e got.status
      then record { reply = got; gate = succeed g; sent = leg ∷ [] }
      else fetch_dc (fail g now) (leg ∷ [])

  unfoldable pub through_gate : ℕ → Bool → Leg → Gate × Bool → Outcome
  unfolding after_v6
  through_gate now ended leg (g, true) = after_v6 g now ended leg (send leg) (send leg).err
  through_gate now ended leg (g, false) = fetch_dc g []

  -- `over_v6` tells that there is an IPv6 pool, the URL is Instagram's and the draw falls to IPv6; `left` is
  -- the time to the deadline, if there is one; the clock is read before and behind the attempt.
  unfoldable pub fetch_via_proxy : Bool → Bool → Option ℕ → ℕ → ℕ → Bool → Gate → Outcome
  unfolding through_gate v6_budget
  fetch_via_proxy over_v6 page left now later ended g =
      if over_v6
      then through_gate later ended (v6 (v6_budget page left)) (allow g now)
      else fetch_dc g []

-- ===== src/Tests/Pools.antt =====
-- Proxy sessions and the requests over them, on concrete inputs. Floating-point numbers are stood in for
-- by natural ones.
use oginstagram.Base.{
  ℕ, zero, suc, ◌+◌, ◌-◌, ◌*◌, ◌≡◌, ◌≤◌, refl, ap, sym, true, false, List, [], ◌∷◌, none, some,
  get_elem?, ltb,
}
use oginstagram.Base.Text.{codes}
use mathlib.Core.Option.{some-injective, none-ne-some}
use oginstagram.Config.{second}
use oginstagram.Errors.{ephemeral_err, connection}
use oginstagram.Fetch.Gate.{init}
use oginstagram.Fetch.Gate.Invariant.{IsValid, init-IsValid}
use oginstagram.Fetch.Pool.{Floats, Session, SessionPool, pick, put}
use oginstagram.Fetch.Pool.Ready.{pick-IsReady}
use oginstagram.Fetch.Pool.Traffic.{
  Traffic, Move, starts, ends, Accounted, count_on, moves, moves-Accounted,
}
use oginstagram.Fetch.Via.{Leg, v6, dc, Reply, fetch_via_proxy}
use oginstagram.Fetch.Via.Legs.{Answers, fetch_via_proxy-Answers}

abbrev naturals : Floats ℕ
naturals = record {
  zero_float = 0;
  one = 1;
  of_nat = λ n. n;
  add = λ a b. a + b;
  sub = λ a b. a - b;
  mul = λ a b. a * b;
  less = λ a b. ltb a b;
  decay = λ d. 1;
}

abbrev fresh : ℕ → Session ℕ
fresh n = record { client = n; rtt = 0; rtt_at = 0; pending = 0; cooldown_until = 0 }

abbrev pool : SessionPool ℕ
pool = record { sessions = fresh 0 ∷ fresh 1 ∷ []; next_client = 2 }

abbrev idle : Traffic ℕ
idle = record { pool = pool; flights = [] }

idle-Accounted : Accounted naturals idle
unfolding count_on
idle-Accounted = record { pending_flights = at_rest }
  where
    at_rest :
        (i : ℕ) (s : Session ℕ)
        → get_elem? idle.pool.sessions i ≡ some s
        → s.pending ≡ count_on i idle.flights
    at_rest zero s h = ap (λ (x : Session ℕ). x.pending) (some-injective s (fresh 0) (sym h))
    at_rest (suc zero) s h = ap (λ (x : Session ℕ). x.pending) (some-injective s (fresh 1) (sym h))
    at_rest (suc (suc i)) s h = absurd (none-ne-some s h)

abbrev course : List Move
course = starts false 1 0 0 ∷ starts true 2 1 0 ∷ ends 1 3 second false true ∷ []

moves-Accounted_example : Accounted naturals (moves naturals idle course)
moves-Accounted_example = moves-Accounted naturals idle course idle-Accounted

pick-IsReady_example :
    (s : Session ℕ) × (get_elem? pool.sessions 0 ≡ some s)
    × (s.cooldown_until ≤ 5)
    × (put pool 0 (record (fresh 0) { pending = 1 })
        ≡ put pool 0 (record s { pending = s.pending + 1 }))
unfolding pick oginstagram.Fetch.Pool.cheaper
pick-IsReady_example =
    pick-IsReady naturals false 5 0 0 pool (put pool 0 (record (fresh 0) { pending = 1 })) 0 refl

-- IPv6 times out, DC answers.
abbrev send : Leg → Reply
send (v6 budget) = record {
  status = 0;
  out = [];
  err = some (ephemeral_err 504 connection "deadline");
}
send (dc limit hung) = record { status = 200; out = codes "ok"; err = none }

fetch_via_proxy-Answers_example :
    Answers send false
      (fetch_via_proxy send (λ out. false) true false (some second) 1 2 false init).sent
      (fetch_via_proxy send (λ out. false) true false (some second) 1 2 false init).reply
    × IsValid (fetch_via_proxy send (λ out. false) true false (some second) 1 2 false init).gate
fetch_via_proxy-Answers_example =
    fetch_via_proxy-Answers send (λ out. false) true false (some second) 1 2 false init init-IsValid

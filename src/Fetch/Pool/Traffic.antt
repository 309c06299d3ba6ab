-- ===== src/Fetch/Pool/Traffic.antt =====
-- server/proxy.go: the requests in flight on a pool, from `pick` to `done` and `fail`, and the count that
-- each session keeps of its own.
use oginstagram.Base.{
  ℕ, zero, suc, ◌+◌, ◌-◌, ◌≡◌, ◌≢◌, ◌⊎◌, inl, inr, refl, ap, subst, sym, ◌∙◌, Bool, true, false,
  not, ◌||◌, List, [], ◌∷◌, Option, none, some, get_elem?, set, remove_at, get_elem?-set_same,
  get_elem?-set_other, ◌==◌, max, arith, if◌then◌else◌, both_branches, Bool-cases,
}
use mathlib.Core.Option.{some-injective, none-ne-some}
use oginstagram.Config.{rotate_cooldown}
use oginstagram.Fetch.Pool.{Session, SessionPool, Floats, pick, done, measure, fail, put}
use oginstagram.Fetch.Pool.Ready.{pick-IsReady, pick-none}

-- A request in flight: the position of its session, and the client it runs on.
pub record Traffic (F : Type 0) : Type 0 where
  pub pool : SessionPool F
  pub flights : List (ℕ × ℕ)

pub data Move : Type 0 where
  -- `pick`: whether the host is www, the clock and two draws.
  starts : Bool → ℕ → ℕ → ℕ → Move
  -- The end of the request at a position of the flights: the clock, the round trip, and whether it is
  -- observed and the session replaced.
  ends : ℕ → ℕ → ℕ → Bool → Bool → Move

unfoldable pub count_on : ℕ → List (ℕ × ℕ) → ℕ
count_on i [] = 0
count_on i (f ∷ fs) = (if f.0 == i then 1 else 0) + count_on i fs

module _ {F : Type 0} (fl : Floats F) where
  unfoldable pub launch : List (ℕ × ℕ) → SessionPool F → ℕ → Option (Session F) → Traffic F
  launch flights q k none = record { pool = q; flights = flights }
  launch flights q k (some s) = record { pool = q; flights = (k, s.client) ∷ flights }

  unfoldable pub take_off : List (ℕ × ℕ) → SessionPool F × Option ℕ → Traffic F
  unfolding launch
  take_off flights (q, none) = record { pool = q; flights = flights }
  take_off flights (q, some k) = launch flights q k (get_elem? q.sessions k)

  -- `pool.done`, and `pool.fail` for a session that is to blame.
  unfoldable pub land_on :
      SessionPool F → ℕ × ℕ → ℕ → ℕ → Bool → Bool → Option (Session F) → SessionPool F
  land_on p f now rtt observe rotate none = p
  land_on p f now rtt observe rotate (some s) =
      let t = done fl now s f.1 rtt observe in
      let q = put p f.0 t in if rotate then (fail q fl.zero_float f.0 t f.1 now).0 else q

  unfoldable pub land : SessionPool F → ℕ × ℕ → ℕ → ℕ → Bool → Bool → SessionPool F
  unfolding land_on
  land p f now rtt observe rotate = land_on p f now rtt observe rotate (get_elem? p.sessions f.0)

  unfoldable pub end_flight : Traffic F → ℕ → ℕ → ℕ → Bool → Bool → Option (ℕ × ℕ) → Traffic F
  unfolding land
  end_flight t n now rtt observe rotate none = t
  end_flight t n now rtt observe rotate (some f) = record {
    pool = land t.pool f now rtt observe rotate;
    flights = remove_at t.flights n;
  }

  unfoldable pub move : Traffic F → Move → Traffic F
  unfolding take_off end_flight
  move t (starts www now i j) = take_off t.flights (pick fl www now i j t.pool)
  move t (ends n now rtt observe rotate) =
      end_flight t n now rtt observe rotate (get_elem? t.flights n)

  unfoldable pub moves : Traffic F → List Move → Traffic F
  unfolding move
  moves t [] = t
  moves t (m ∷ ms) = moves (move t m) ms

  -- Each session counts the requests in flight on it.
  pub record Accounted (t : Traffic F) : Type 0 where
    pub pending_flights :
        (i : ℕ) (s : Session F)
        → get_elem? t.pool.sessions i ≡ some s
        → s.pending ≡ count_on i t.flights

  count_on-remove_at :
      (fs : List (ℕ × ℕ)) (n i : ℕ) (f : ℕ × ℕ)
      → get_elem? fs n ≡ some f
      → count_on i fs ≡ (if f.0 == i then 1 else 0) + count_on i (remove_at fs n)
  unfolding count_on
  count_on-remove_at [] n i f h = absurd cc
  count_on-remove_at (g ∷ fs) zero i f h =
      ap (λ (x : ℕ × ℕ). (if x.0 == i then 1 else 0) + count_on i fs) (some-injective _ _ h)
  count_on-remove_at (g ∷ fs) (suc n) i f h =
      let rest = count_on-remove_at fs n i f h in omega (arith, rest)

  count_on-remove_same :
      (fs : List (ℕ × ℕ)) (n i : ℕ) (f : ℕ × ℕ)
      → get_elem? fs n ≡ some f
      → f.0 ≡ i
      → count_on i fs ≡ suc (count_on i (remove_at fs n))
  count_on-remove_same fs n i f h e = let all = count_on-remove_at fs n i f h in ground arith

  count_on-remove_other :
      (fs : List (ℕ × ℕ)) (n i : ℕ) (f : ℕ × ℕ)
      → get_elem? fs n ≡ some f
      → f.0 ≢ i
      → count_on i fs ≡ count_on i (remove_at fs n)
  count_on-remove_other fs n i f h e = let all = count_on-remove_at fs n i f h in ground arith

  -- A session of a list with one session replaced.
  set-cases :
      (ss : List (Session F)) (k i : ℕ) (old new s : Session F)
      → get_elem? ss k ≡ some old
      → get_elem? (set ss k new) i ≡ some s
      → ((k ≡ i) × (new ≡ s)) ⊎ ((k ≢ i) × (get_elem? ss i ≡ some s))
  set-cases ss k i old new s here there = elim (Bool-cases (k == i)) [
    | inl same ↦
        let k≡i : k ≡ i = ground arith in
        inl (
          k≡i,
          some-injective new s (
              sym (get_elem?-set_same ss k old new here)
              ∙ subst (λ n. get_elem? (set ss k new) n ≡ some s) (sym k≡i) there),
        )
    | inr other ↦
        let k≢i : k ≢ i = λ e. ground arith in
        inr (k≢i, sym (get_elem?-set_other ss k i new k≢i) ∙ there)
  ]

  done-pending :
      (now : ℕ) (s : Session F) (client rtt : ℕ) (observe : Bool)
      → (done fl now s client rtt observe).pending ≡ s.pending - 1
  unfolding done measure
  done-pending now s client rtt observe =
      both_branches (λ (t : Session F). t.pending ≡ s.pending - 1)
        (not observe || not (s.client == client)) _ _ refl
        (both_branches (λ (t : Session F). t.pending ≡ s.pending - 1) (s.rtt_at == 0) _ _ refl refl)

  -- `q` is `p` but for the session at `k`, on which `n` requests are pending.
  Moved : SessionPool F → SessionPool F → ℕ → ℕ → Type 0
  Moved p q k n =
      (i : ℕ) (s : Session F)
      → get_elem? q.sessions i ≡ some s
      → ((k ≡ i) × (s.pending ≡ n)) ⊎ ((k ≢ i) × (get_elem? p.sessions i ≡ some s))

  Moved-put :
      (p : SessionPool F) (k : ℕ) (old new : Session F)
      → get_elem? p.sessions k ≡ some old
      → Moved p (put p k new) k new.pending
  unfolding Moved
  Moved-put p k old new here i s there = elim (set-cases p.sessions k i old new s here there) [
    | inl h ↦ inl (h.0, ap (λ (t : Session F). t.pending) (sym h.1))
    | inr h ↦ inr h
  ]

  Moved-trans : (p q r : SessionPool F) (k n m : ℕ) → Moved p q k n → Moved q r k m → Moved p r k m
  unfolding Moved
  Moved-trans p q r k n m pq qr i s there = elim (qr i s there) [
    | inl h ↦ inl h
    | inr h ↦ elim (pq i s h.1) [ inl g ↦ absurd (h.0 g.0) | inr g ↦ inr g ]
  ]

  -- A late failure changes no session, and one in time leaves the count.
  Moved-fail :
      (p : SessionPool F) (z : F) (k : ℕ) (s : Session F) (client now : ℕ)
      → get_elem? p.sessions k ≡ some s
      → Moved p (fail p z k s client now).0 k s.pending
  unfolding fail Moved
  Moved-fail p z k s client now here =
      both_branches (λ (x : SessionPool F × Bool). Moved p x.0 k s.pending)
        (not (s.client == client)) _ _
        (λ (i : ℕ) (t : Session F) (there : get_elem? p.sessions i ≡ some t).
          elim (Bool-cases (k == i)) [
            | inl same ↦
                let k≡i : k ≡ i = ground arith in
                inl (
                  k≡i,
                  ap (λ (x : Session F). x.pending)
                      (some-injective t s
                        (sym there ∙ subst (λ n. get_elem? p.sessions n ≡ some s) k≡i here)),
                )
            | inr other ↦ inr ((λ e. ground arith), there)
          ])
        (λ i t there.
          Moved-put p k s
            (record s {
              client = p.next_client;
              rtt = z;
              rtt_at = 0;
              cooldown_until = max s.cooldown_until (now + rotate_cooldown);
            })
            here i t there)

  Moved-land :
      (p : SessionPool F) (f : ℕ × ℕ) (now rtt : ℕ) (observe rotate : Bool) (s : Session F)
      → get_elem? p.sessions f.0 ≡ some s
      → Moved p (land_on p f now rtt observe rotate (some s)) f.0 (s.pending - 1)
  unfolding land_on
  Moved-land p f now rtt observe rotate s here =
      let t = done fl now s f.1 rtt observe in
      let q = put p f.0 t in
      let fewer = done-pending now s f.1 rtt observe in
      let landed = Moved-put p f.0 s t here in
      let there = get_elem?-set_same p.sessions f.0 s t here in
      subst (Moved p (if rotate then (fail q fl.zero_float f.0 t f.1 now).0 else q) f.0) fewer (
        both_branches (λ (r : SessionPool F). Moved p r f.0 t.pending) rotate _ q
          (Moved-trans p q (fail q fl.zero_float f.0 t f.1 now).0 f.0 t.pending t.pending landed
            (Moved-fail q fl.zero_float f.0 t f.1 now there))
          landed)

  launch-Accounted :
      (p q : SessionPool F) (k : ℕ) (s : Session F) (fs : List (ℕ × ℕ))
      → Accounted (record { pool = p; flights = fs })
      → Moved p q k (s.pending + 1)
      → get_elem? p.sessions k ≡ some s
      → (t : Session F) → Accounted (launch fs q k (some t))
  unfolding launch count_on Moved
  launch-Accounted p q k s fs inv moved here t = record {
    pending_flights = λ i u there. elim (moved i u there) [
      | inl h ↦
          let before = inv.pending_flights k s here in
          let same : k == i ≡ true = ground arith in
          simp same
            (omega (arith, h.1, before, subst (λ n. count_on k fs ≡ count_on n fs) h.0 refl))
      | inr h ↦
          let before = inv.pending_flights i u h.1 in
          let same : k == i ≡ false = ground arith in simp same (omega (arith, before))
    ];
  }

  take_off-Accounted :
      (www : Bool) (now i j : ℕ) (t : Traffic F) (r : SessionPool F × Option ℕ)
      → Accounted t
      → pick fl www now i j t.pool ≡ r
      → Accounted (take_off t.flights r)
  unfolding take_off
  take_off-Accounted www now i j t (q, none) inv e =
      subst (λ p. Accounted (record { pool = p; flights = t.flights }))
        (pick-none fl www now i j t.pool q e) inv
  take_off-Accounted www now i j t (q, some k) inv e =
      let (s, here, cool, moved) = pick-IsReady fl www now i j t.pool q k e in
      let new : Session F = record s { pending = s.pending + 1 } in
      subst (λ q. Accounted (launch t.flights q k (get_elem? q.sessions k))) (sym moved)
        (subst (λ o. Accounted (launch t.flights (put t.pool k new) k o))
          (sym (get_elem?-set_same t.pool.sessions k s new here))
          (launch-Accounted t.pool (put t.pool k new) k s t.flights inv
            (Moved-put t.pool k s new here) here new))

  land-Accounted :
      (t : Traffic F) (n now rtt : ℕ) (observe rotate : Bool) (f : ℕ × ℕ) (o : Option (Session F))
      → Accounted t
      → get_elem? t.flights n ≡ some f
      → get_elem? t.pool.sessions f.0 ≡ o
      → Accounted (record {
        pool = land_on t.pool f now rtt observe rotate o;
        flights = remove_at t.flights n;
      })
  unfolding Moved land_on
  land-Accounted t n now rtt observe rotate f none inv flight gone = record {
    pending_flights = λ i u there.
        let other : f.0 ≢ i = λ e.
          none-ne-some u
            (sym gone ∙ subst (λ n. get_elem? t.pool.sessions n ≡ some u) (sym e) there) in
        inv.pending_flights i u there ∙ count_on-remove_other t.flights n i f flight other;
  }
  land-Accounted t n now rtt observe rotate f (some s) inv flight here = record {
    pending_flights = λ i u there.
        elim (Moved-land t.pool f now rtt observe rotate s here i u there) [
          | inl h ↦
              let before = inv.pending_flights f.0 s here in
              let fewer = count_on-remove_same t.flights n f.0 f flight refl in
              h.1
              ∙ subst (λ i. s.pending - 1 ≡ count_on i (remove_at t.flights n)) h.0
                  (omega (arith, before, fewer))
          | inr h ↦ inv.pending_flights i u h.1 ∙ count_on-remove_other t.flights n i f flight h.0
        ];
  }

  end_flight-Accounted :
      (t : Traffic F) (n now rtt : ℕ) (observe rotate : Bool) (o : Option (ℕ × ℕ))
      → Accounted t
      → get_elem? t.flights n ≡ o
      → Accounted (end_flight t n now rtt observe rotate o)
  unfolding end_flight land
  end_flight-Accounted t n now rtt observe rotate none inv flight = inv
  end_flight-Accounted t n now rtt observe rotate (some f) inv flight =
      land-Accounted t n now rtt observe rotate f _ inv flight refl

  move-Accounted : (t : Traffic F) (m : Move) → Accounted t → Accounted (move t m)
  unfolding move
  move-Accounted t (starts www now i j) inv = take_off-Accounted www now i j t _ inv refl
  move-Accounted t (ends n now rtt observe rotate) inv =
      end_flight-Accounted t n now rtt observe rotate _ inv refl

  -- However requests start and end on a pool, each session's `pending` is the number of the requests in
  -- flight on it; so `done` never meets a count of 0.
  pub moves-Accounted : (t : Traffic F) (ms : List Move) → Accounted t → Accounted (moves t ms)
  unfolding moves
  moves-Accounted t [] inv = inv
  moves-Accounted t (m ∷ ms) inv = moves-Accounted (move t m) ms (move-Accounted t m inv)

-- ===== src/Fetch/Pool/Ready.antt =====
-- server/proxy.go, `pick`: which session a request gets.
use oginstagram.Base.{
  ℕ, zero, suc, ◌+◌, ◌-◌, ◌≡◌, ◌≤◌, refl, ap, subst, sym, Bool, false, ◌&&◌, ◌||◌, List, [], ◌∷◌,
  Option, none, some, get_elem?, get_or, leb, ◌==◌, All, arith, if◌then◌else◌, both_branches,
  by_cases, leb→le,
}
use mathlib.Core.Option.{some-injective}
use oginstagram.Config.{www_sessions}
use oginstagram.Fetch.Pool.{
  Session, SessionPool, Floats, ready_from, ready, cost, cheaper, choose, take_picked, pick, put,
}

module _ {F : Type 0} where
  -- The session stands at that position, and is not cooling down.
  abbrev pub IsReady : ℕ → List (Session F) → ℕ × Session F → Type 0
  IsReady now sessions x = (get_elem? sessions x.0 ≡ some x.1) × (x.1.cooldown_until ≤ now)

  -- The positions count from `i`.
  IsReadyFrom : ℕ → ℕ → List (Session F) → ℕ × Session F → Type 0
  IsReadyFrom now i sessions x =
      (i ≤ x.0) × (get_elem? sessions (x.0 - i) ≡ some x.1) × (x.1.cooldown_until ≤ now)

  IsReadyFrom-suc :
      (now i : ℕ) (s : Session F) (ss : List (Session F)) (xs : List (ℕ × Session F))
      → All (IsReadyFrom now (suc i) ss) xs
      → All (IsReadyFrom now i (s ∷ ss)) xs
  unfolding IsReadyFrom
  IsReadyFrom-suc now i s ss [] h = tt
  IsReadyFrom-suc now i s ss (x ∷ xs) (h, rest) =
      let next : x.0 - i ≡ suc (x.0 - suc i) = omega (arith, h.0) in
      ((omega (arith, h.0), rw next h.1, h.2), IsReadyFrom-suc now i s ss xs rest)

  ready_from_lem :
      (www : Bool) (now i : ℕ) (got : Bool) (ss : List (Session F))
      → All (IsReadyFrom now i ss) (ready_from www now i got ss)
  unfolding ready_from IsReadyFrom
  ready_from_lem www now i got [] = tt
  ready_from_lem www now i got (s ∷ ss) =
      let cool = leb s.cooldown_until now in
      let rest = ready_from www now (suc i) (got || cool) ss in
      let later =
        IsReadyFrom-suc now i s ss rest (ready_from_lem www now (suc i) (got || cool) ss) in
      both_branches (All (IsReadyFrom now i (s ∷ ss))) (www && i == www_sessions && got) [] _ tt (
        by_cases (All (IsReadyFrom now i (s ∷ ss))) cool ((i, s) ∷ rest) rest
          (λ yes. (
            (omega arith, (let here : i - i ≡ 0 = omega arith in rw here refl), leb→le _ _ yes),
            later,
          ))
          (λ no. later))

  All-map :
      (P Q : ℕ × Session F → Type 0) (xs : List (ℕ × Session F))
      → ((x : ℕ × Session F) → P x → Q x)
      → All P xs
      → All Q xs
  All-map P Q [] f h = tt
  All-map P Q (x ∷ xs) f (h, rest) = (f x h, All-map P Q xs f rest)

  ready-IsReady :
      (www : Bool) (now : ℕ) (p : SessionPool F) → All (IsReady now p.sessions) (ready www now p)
  unfolding ready IsReadyFrom
  ready-IsReady www now p =
      All-map (IsReadyFrom now 0 p.sessions) (IsReady now p.sessions) _
        (λ x h. (
          (let same : x.0 - 0 ≡ x.0 = omega arith in
              subst (λ n. get_elem? p.sessions n ≡ some x.1) same h.1),
          h.2,
        ))
        (ready_from_lem www now 0 false p.sessions)

  All-get_or :
      (P : ℕ × Session F → Type 0) (xs : List (ℕ × Session F)) (i : ℕ) (d : ℕ × Session F)
      → P d
      → All P xs
      → P (get_or xs i d)
  All-get_or P [] i d p h = p
  All-get_or P (x ∷ xs) zero d p (h, rest) = h
  All-get_or P (x ∷ xs) (suc i) d p (h, rest) = All-get_or P xs i d p rest

  module _ (fl : Floats F) where
    choose-IsReady :
        (now i j : ℕ) (sessions : List (Session F)) (all : List (ℕ × Session F)) (x : ℕ × Session F)
        → All (IsReady now sessions) all
        → choose fl now i j all ≡ some x
        → IsReady now sessions x
    unfolding choose cheaper
    choose-IsReady now i j sessions [] x h e = absurd cc
    choose-IsReady now i j sessions (a ∷ []) x (h, rest) e =
        subst (IsReady now sessions) (some-injective _ _ e) h
    choose-IsReady now i j sessions (a ∷ b ∷ rest) x h e =
        let all = a ∷ b ∷ rest in
        let left = get_or all i a in
        let right = get_or all (if leb i j then j + 1 else j) a in
        subst (IsReady now sessions) (some-injective _ _ e) (
          both_branches (IsReady now sessions) (fl.less (cost fl now right.1) (cost fl now left.1))
            right left
            (All-get_or (IsReady now sessions) all (if leb i j then j + 1 else j) a h.0 h)
            (All-get_or (IsReady now sessions) all i a h.0 h))

    take_picked-IsReady :
        (now : ℕ) (p q : SessionPool F) (k : ℕ) (o : Option (ℕ × Session F))
        → ((x : ℕ × Session F) → o ≡ some x → IsReady now p.sessions x)
        → take_picked fl p o ≡ (q, some k)
        → (s : Session F) × (get_elem? p.sessions k ≡ some s)
          × (s.cooldown_until ≤ now)
          × (q ≡ put p k (record s { pending = s.pending + 1 }))
    unfolding take_picked
    take_picked-IsReady now p q k none h e = absurd cc
    take_picked-IsReady now p q k (some (n, s)) h e =
        let same : n ≡ k = cc in
        let here = h (n, s) refl in
        (
          s,
          subst (λ m. get_elem? p.sessions m ≡ some s) same here.0,
          here.1,
          subst (λ m. q ≡ put p m (record s { pending = s.pending + 1 })) same
              (sym (ap (λ (t : SessionPool F × Option ℕ). t.0) e)),
        )

    -- What the caller gets: a session that is not cooling down, with one request more pending on it;
    -- the others are as before.
    pub pick-IsReady :
        (www : Bool) (now i j : ℕ) (p q : SessionPool F) (k : ℕ)
        → pick fl www now i j p ≡ (q, some k)
        → (s : Session F) × (get_elem? p.sessions k ≡ some s)
          × (s.cooldown_until ≤ now)
          × (q ≡ put p k (record s { pending = s.pending + 1 }))
    unfolding pick
    pick-IsReady www now i j p q k e =
        take_picked-IsReady now p q k (choose fl now i j (ready www now p))
          (λ x. choose-IsReady now i j p.sessions (ready www now p) x (ready-IsReady www now p)) e

    take_picked-none :
        (p q : SessionPool F) (o : Option (ℕ × Session F)) → take_picked fl p o ≡ (q, none) → p ≡ q
    unfolding take_picked
    take_picked-none p q none e = ap (λ (t : SessionPool F × Option ℕ). t.0) e
    take_picked-none p q (some x) e = absurd cc

    pub pick-none :
        (www : Bool) (now i j : ℕ) (p q : SessionPool F) → pick fl www now i j p ≡ (q, none) → p ≡ q
    unfolding pick
    pick-none www now i j p q e = take_picked-none p q _ e

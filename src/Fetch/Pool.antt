-- ===== src/Fetch/Pool.antt =====
-- server/proxy.go: the sessions of a proxy pool, and which of them the next request takes. A client is
-- a number, a new one for every `buildSessionClient`; the random draws and the clock are arguments; the
-- floating-point operations are a parameter. Each method is one step.
pub mod Ready
pub mod Traffic
use oginstagram.Base.{
  ℕ, zero, suc, ◌+◌, ◌-◌, ◌*◌, Bool, true, false, not, ◌&&◌, ◌||◌, List, [], ◌∷◌, Option, none,
  some, max, length, get_elem?, get_or, set, leb, ltb, ◌==◌, if◌then◌else◌,
}
use oginstagram.Config.{hour, rotate_cooldown, www_sessions}

-- `float64` as the pool uses it; `decay d` is `math.Exp(-d / sessionRTTDecay)`.
pub record Floats (F : Type 0) : Type 0 where
  pub zero_float : F
  pub one : F
  pub of_nat : ℕ → F
  pub add : F → F → F
  pub sub : F → F → F
  pub mul : F → F → F
  pub less : F → F → Bool
  pub decay : ℕ → F

-- `rtt_at` is 0 while nothing is measured.
pub record Session (F : Type 0) : Type 0 where
  pub client : ℕ
  pub rtt : F
  pub rtt_at : ℕ
  pub pending : ℕ
  pub cooldown_until : ℕ

-- The next client is the number of `buildSessionClient` calls so far.
pub record SessionPool (F : Type 0) : Type 0 where
  pub sessions : List (Session F)
  pub next_client : ℕ

module _ {F : Type 0} where
  -- The loop over the sessions that are ready, with their positions; `got` tells that one is there.
  unfoldable pub ready_from : Bool → ℕ → ℕ → Bool → List (Session F) → List (ℕ × Session F)
  ready_from www now i got [] = []
  ready_from www now i got (s ∷ ss) =
      let cool = leb s.cooldown_until now in
      let rest = ready_from www now (suc i) (got || cool) ss in
      if www && i == www_sessions && got then [] else if cool then (i, s) ∷ rest else rest

  unfoldable pub ready : Bool → ℕ → SessionPool F → List (ℕ × Session F)
  unfolding ready_from
  ready www now p = ready_from www now 0 false p.sessions

  abbrev pub put : SessionPool F → ℕ → Session F → SessionPool F
  put p i s = record p { sessions = set p.sessions i s }

  -- The number of sessions that `newSessionPool` makes, each with a client of its own.
  unfoldable pub build_sessions : F → ℕ → ℕ → List (Session F)
  build_sessions z n zero = []
  build_sessions z n (suc k) =
      record { client = n; rtt = z; rtt_at = 0; pending = 0; cooldown_until = 0 }
      ∷ build_sessions z (suc n) k

  -- `fail` on the session `s` at the position `i`: the pool, and whether it replaced the client.
  unfoldable pub fail : SessionPool F → F → ℕ → Session F → ℕ → ℕ → SessionPool F × Bool
  fail p z i s client now =
      if not (s.client == client) then (record p { next_client = p.next_client + 1 }, false) else (
        record {
          sessions = set p.sessions i (record s {
            client = p.next_client;
            rtt = z;
            rtt_at = 0;
            cooldown_until = max s.cooldown_until (now + rotate_cooldown);
          });
          next_client = p.next_client + 1;
        },
        true,
      )

  module _ (fl : Floats F) where
    unfoldable pub cost : ℕ → Session F → F
    cost now s =
        if s.rtt_at == 0
        then fl.mul (fl.of_nat hour) (fl.of_nat s.pending)
        else fl.mul (fl.mul s.rtt (fl.decay (now - s.rtt_at))) (fl.of_nat (s.pending + 1))

    -- Two different positions among the ready sessions, and the cheaper of the two sessions.
    unfoldable pub cheaper : ℕ → ℕ → ℕ → ℕ × Session F → List (ℕ × Session F) → ℕ × Session F
    unfolding cost
    cheaper now i j first all =
        let a = get_or all i first in
        let b = get_or all (if leb i j then j + 1 else j) first in
        if fl.less (cost now b.1) (cost now a.1) then b else a

    unfoldable pub choose : ℕ → ℕ → ℕ → List (ℕ × Session F) → Option (ℕ × Session F)
    choose now i j [] = none
    choose now i j (a ∷ []) = some a
    choose now i j (a ∷ b ∷ rest) = some (cheaper now i j a (a ∷ b ∷ rest))

    unfoldable pub take_picked : SessionPool F → Option (ℕ × Session F) → SessionPool F × Option ℕ
    take_picked p none = (p, none)
    take_picked p (some picked) =
        (put p picked.0 (record picked.1 { pending = picked.1.pending + 1 }), some picked.0)

    unfoldable pub pick : Bool → ℕ → ℕ → ℕ → SessionPool F → SessionPool F × Option ℕ
    unfolding choose ready take_picked
    pick www now i j p = take_picked p (choose now i j (ready www now p))

    -- The round trip that a sample leads to.
    unfoldable pub measure : ℕ → ℕ → Session F → Session F
    measure now rtt s =
        let sample = fl.of_nat rtt in
        if s.rtt_at == 0
        then record s { rtt = sample; rtt_at = now }
        else (let decay = fl.decay (now - s.rtt_at) in
            let current = fl.mul s.rtt decay in
            record s {
              rtt =
                  if fl.less current sample
                  then sample
                  else fl.add current (fl.mul (fl.sub sample current) (fl.sub fl.one decay));
              rtt_at = now;
            })

    unfoldable pub done : ℕ → Session F → ℕ → ℕ → Bool → Session F
    done now s client rtt observe =
        let t = record s { pending = s.pending - 1 } in
        if not observe || not (s.client == client) then t else measure now rtt t

-- ===== src/Fetch/Via/Legs.antt =====
-- server/fetch.go, `fetchViaProxy`: what it sends, what it answers, and what it tells the gate.
use oginstagram.Base.{
  ℕ, ◌≡◌, ◌⊎◌, inl, inr, refl, Bool, true, false, not, ◌&&◌, List, [], ◌∷◌, Option, none, some,
  is_some, both_branches, by_cases, ◌||◌, or-true, sym, subst,
}
use oginstagram.Base.Text.{Text}
use oginstagram.Errors.{AppError}
use oginstagram.Fetch.Gate.{Gate, allow, succeed}
use oginstagram.Fetch.Gate.Invariant.{
  IsValid, allow-IsValid, release-IsValid, succeed-IsValid, fail-IsValid,
}
use oginstagram.Fetch.Via.{
  Leg, v6, dc, Reply, Outcome, fetch_dc, after_answer, after_v6, through_gate, fetch_via_proxy,
  is_content_error, v6_budget, dc_recheck_timeout, proxy_hung_after,
}

-- The reply is good, or its error is about the content.
unfoldable pub is_settled : Option AppError → ℕ → Bool
is_settled none status = true
is_settled (some e) status = is_content_error e status

-- One request or two, the second over DC, and the answer is the reply to one of them. That of IPv6 is the
-- answer only where it settles the matter, or the context has ended.
unfoldable pub Answers : (Leg → Reply) → Bool → List Leg → Reply → Type 0
Answers send ended [] r = ⊥
Answers send ended (dc limit hung ∷ []) r = r ≡ send (dc limit hung)
Answers send ended (v6 budget ∷ []) r =
    (r ≡ send (v6 budget)) × ((ended || is_settled r.err r.status) ≡ true)
Answers send ended (dc limit hung ∷ b ∷ rest) r = ⊥
Answers send ended (v6 budget ∷ v6 other ∷ rest) r = ⊥
Answers send ended (v6 budget ∷ dc limit hung ∷ []) r =
    ((r ≡ send (v6 budget)) × (is_settled r.err r.status ≡ true)) ⊎ (r ≡ send (dc limit hung))
Answers send ended (v6 budget ∷ dc limit hung ∷ c ∷ rest) r = ⊥

module _ (send : Leg → Reply) (recheck : Text → Bool) where
  Good : Bool → Outcome → Type 0
  Good ended o = Answers send ended o.sent o.reply × IsValid o.gate

  after_answer-Good :
      (g : Gate) (ended : Bool) (budget : ℕ)
      → is_settled (send (v6 budget)).err (send (v6 budget)).status ≡ true
      → IsValid g
      → Good ended (after_answer send recheck g (v6 budget) (send (v6 budget)))
  unfolding after_answer Answers Good
  after_answer-Good g ended budget ok valid =
      let again = send (dc dc_recheck_timeout proxy_hung_after) in
      both_branches (Good ended) (not (recheck (send (v6 budget)).out)) _ _
        ((refl, rw ok (or-true ended)), valid)
        (
          both_branches
              (λ (r : Reply).
                ((r ≡ send (v6 budget)) × (is_settled r.err r.status ≡ true)) ⊎ (r ≡ again))
              (not (is_some again.err) && not (recheck again.out)) again (send (v6 budget))
              (inr refl) (inl (refl, ok)),
          valid,
        )

  settled :
      {budget : ℕ} (err : Option AppError)
      → (send (v6 budget)).err ≡ err
      → is_settled err (send (v6 budget)).status ≡ true
      → is_settled (send (v6 budget)).err (send (v6 budget)).status ≡ true
  settled {budget} err e h =
      subst (λ (o : Option AppError). is_settled o (send (v6 budget)).status ≡ true) (sym e) h

  after_v6-Good :
      (g : Gate) (now budget : ℕ) (ended : Bool) (err : Option AppError)
      → (send (v6 budget)).err ≡ err
      → IsValid g
      → Good ended (after_v6 send recheck g now ended (v6 budget) (send (v6 budget)) err)
  unfolding after_v6 fetch_dc Answers Good is_settled
  after_v6-Good g now budget true err e valid = ((refl, refl), release-IsValid g valid)
  after_v6-Good g now budget false none e valid =
      after_answer-Good (succeed g) false budget (settled none e refl) (succeed-IsValid g valid)
  after_v6-Good g now budget false (some err) e valid =
      by_cases (Good false) (is_content_error err (send (v6 budget)).status) _ _
        (λ content. ((refl, settled (some err) e content), succeed-IsValid g valid))
        (λ other. (inr refl, fail-IsValid g valid now))

  through_gate-Good :
      (now : ℕ) (budget : ℕ) (ended : Bool) (o : Gate × Bool)
      → IsValid o.0
      → Good ended (through_gate send recheck now ended (v6 budget) o)
  unfolding through_gate fetch_dc Good Answers
  through_gate-Good now budget ended (g, true) valid =
      after_v6-Good g now budget ended (send (v6 budget)).err refl valid
  through_gate-Good now budget ended (g, false) valid = (refl, valid)

  -- `fetchViaProxy` sends one request or two, the second over DC, and answers with the reply to one of
  -- them; a reply over IPv6 is the answer only where it is good or its error is about the content, or the
  -- context has ended. The gate that it leaves is valid again.
  pub fetch_via_proxy-Answers :
      (over_v6 page : Bool) (left : Option ℕ) (now later : ℕ) (ended : Bool) (g : Gate)
      → IsValid g
      → Answers send ended
          (fetch_via_proxy send recheck over_v6 page left now later ended g).sent
          (fetch_via_proxy send recheck over_v6 page left now later ended g).reply
        × IsValid (fetch_via_proxy send recheck over_v6 page left now later ended g).gate
  unfolding fetch_via_proxy fetch_dc Good Answers
  fetch_via_proxy-Answers over_v6 page left now later ended g valid =
      both_branches (Good ended) over_v6
        (through_gate send recheck later ended (v6 (v6_budget page left)) (allow g now))
        (fetch_dc send recheck g [])
        (through_gate-Good later (v6_budget page left) ended (allow g now)
          (allow-IsValid g now valid))
        (refl, valid)

-- ===== src/Cache/Flight/Single.antt =====
-- One flight for each key, and no waiter without one.
use oginstagram.Base.{
  ℕ, ◌+◌, ◌≤◌, ◌<◌, ◌≡◌, sym, ap, subst, ◌∙◌, true, false, List, [], ◌∷◌, Option, none, some,
  is_some, ◌==◌, ==_iff, arith, ◌⊎◌, inl, inr, Bool-cases, if◌then◌else◌,
}
use oginstagram.Base.Text.{Text, text_eq, text_eq_refl, eq_of_text_eq}
use oginstagram.Base.Assoc.{
  lookup, insert, remove, keys, Distinct, lookup-insert, lookup-remove_ne, lookup-remove_self,
  keys-remove, insert-Distinct, Distinct-erase,
}
use oginstagram.Cache.Flight.{Landing, State}

module _ {ℓ} {V : Type ℓ} where
  abbrev pub landing_of : ℕ → List (ℕ × Landing V) → Option (Landing V)
  landing_of id [] = none
  landing_of id ((j, l) ∷ ls) = if j == id then some l else landing_of id ls

  -- Each number that was handed out belongs to one flight, which is under way under one key or has
  -- landed.
  pub record IsSingle (s : State V) : Type ℓ where
    pub distinct : Distinct (keys s.flights)
    pub own :
        (k j : Text) (id : ℕ) → lookup k s.flights ≡ some id → lookup j s.flights ≡ some id → k ≡ j
    pub below : (k : Text) (id : ℕ) → lookup k s.flights ≡ some id → id < s.next
    pub under_way :
        (k : Text) (id : ℕ) → lookup k s.flights ≡ some id → landing_of id s.landed ≡ none
    pub numbered : (id : ℕ) → s.next ≤ id → landing_of id s.landed ≡ none
    pub served :
        (id : ℕ)
        → id < s.next
        → ((k : Text) × (lookup k s.flights ≡ some id)) ⊎ (is_some (landing_of id s.landed) ≡ true)

  -- A new flight.
  abbrev pub opened : State V → Text → State V
  opened s key = record s { flights = insert key s.next s.flights; next = s.next + 1 }

  opened-lookup :
      (s : State V) (key k : Text)
      → lookup k (insert key s.next s.flights)
        ≡ (if text_eq key k then some s.next else lookup k s.flights)
  opened-lookup s key k = lookup-insert key k s.next s.flights

  opened-own :
      (s : State V) (key k j : Text) (id : ℕ)
      → IsSingle s
      → lookup k (opened s key).flights ≡ some id
      → lookup j (opened s key).flights ≡ some id
      → k ≡ j
  opened-own s key k j id v hk hj = elim (Bool-cases (text_eq key k)) [
    | inl ek ↦ elim (Bool-cases (text_eq key j)) [
      | inl ej ↦ sym (eq_of_text_eq key k ek) ∙ eq_of_text_eq key j ej
      | inr oj ↦
          absurd
            (ground (arith, ek, oj, opened-lookup s key k, opened-lookup s key j, v.below j id))
    ]
    | inr ok ↦ elim (Bool-cases (text_eq key j)) [
      | inl ej ↦
          absurd
            (ground (arith, ok, ej, opened-lookup s key k, opened-lookup s key j, v.below k id))
      | inr oj ↦
          v.own k j id (ground (arith, ok, opened-lookup s key k))
            (ground (arith, oj, opened-lookup s key j))
    ]
  ]

  opened-served :
      (s : State V) (key : Text) (id : ℕ)
      → IsSingle s
      → lookup key s.flights ≡ none
      → id < s.next + 1
      → ((k : Text) × (lookup k (opened s key).flights ≡ some id))
        ⊎ (is_some (landing_of id s.landed) ≡ true)
  opened-served s key id v new h = elim (Bool-cases (id == s.next)) [
    | inl same ↦ inl (key, ground (arith, same, text_eq_refl key, opened-lookup s key key))
    | inr old ↦ elim (v.served id (ground (arith, old))) [
      | inr landed ↦ inr landed
      | inl (k, flies) ↦ elim (Bool-cases (text_eq key k)) [
        | inl e ↦
            let same = ap (λ j. lookup j s.flights) (eq_of_text_eq key k e) in
            absurd (ground (arith, same, new, flies))
        | inr other ↦ inl (k, ground (arith, other, flies, opened-lookup s key k))
      ]
    ]
  ]

  pub opened-IsSingle :
      (s : State V) (key : Text)
      → IsSingle s
      → lookup key s.flights ≡ none
      → IsSingle (opened s key)
  opened-IsSingle s key v new = record {
    distinct = insert-Distinct key s.next s.flights v.distinct;
    own = λ k j id hk hj. opened-own s key k j id v hk hj;
    below = λ k id hk. ground (arith, opened-lookup s key k, v.below k id);
    under_way =
        λ k id hk. ground (arith, opened-lookup s key k, v.under_way k id, v.numbered s.next);
    numbered = λ id h. v.numbered id (omega arith);
    served = λ id h. opened-served s key id v new h;
  }

  -- The flight of `key` lands.
  abbrev pub closed : State V → Text → ℕ → Landing V → State V
  closed s key id l = record s { flights = remove key s.flights; landed = (id, l) ∷ s.landed }

  module _ (s : State V) (key : Text) (id : ℕ) (l : Landing V) (v : IsSingle s)
      (flies : lookup key s.flights ≡ some id) where
    -- A flight that is left is one of another key, and was there before.
    closed-other :
        (k : Text) (i : ℕ)
        → lookup k (remove key s.flights) ≡ some i
        → (lookup k s.flights ≡ some i) × (text_eq key k ≡ false)
    closed-other k i h = elim (Bool-cases (text_eq key k)) [
      | inl e ↦
          let gone = lookup-remove_self key s.flights v.distinct in
          let same = ap (λ j. lookup j (remove key s.flights)) (eq_of_text_eq key k e) in
          absurd (ground (arith, gone, same, h))
      | inr other ↦ (sym (lookup-remove_ne key k s.flights other) ∙ h, other)
    ]

    closed-under_way :
        (k : Text) (i : ℕ)
        → lookup k (remove key s.flights) ≡ some i
        → landing_of i ((id, l) ∷ s.landed) ≡ none
    closed-under_way k i h =
        let (there, other) = closed-other k i h in
        elim (Bool-cases (id == i)) [
          | inl e ↦
              let same = v.own key k i (flies ∙ ap some ((==_iff id i).0 e)) there in
              absurd (ground (arith, other, text_eq_refl key, ap (text_eq key) same))
          | inr ne ↦ ground (arith, ne, v.under_way k i there)
        ]

    closed-served :
        (i : ℕ)
        → i < s.next
        → ((k : Text) × (lookup k (remove key s.flights) ≡ some i))
          ⊎ (is_some (landing_of i ((id, l) ∷ s.landed)) ≡ true)
    closed-served i h = elim (Bool-cases (id == i)) [
      | inl e ↦ inr (ground (arith, e))
      | inr ne ↦ elim (v.served i h) [
        | inr landed ↦ inr (ground (arith, ne, landed))
        | inl (k, there) ↦ elim (Bool-cases (text_eq key k)) [
          | inl e ↦
              let same = ap (λ j. lookup j s.flights) (eq_of_text_eq key k e) in
              absurd (ground (arith, same, there, flies, ne))
          | inr other ↦ inl (k, lookup-remove_ne key k s.flights other ∙ there)
        ]
      ]
    ]

    pub closed-IsSingle : IsSingle (closed s key id l)
    closed-IsSingle = record {
      distinct =
          subst Distinct (sym (keys-remove key s.flights))
            (Distinct-erase key (keys s.flights) v.distinct);
      own = λ k j i hk hj. v.own k j i (closed-other k i hk).0 (closed-other j i hj).0;
      below = λ k i hk. v.below k i (closed-other k i hk).0;
      under_way = closed-under_way;
      numbered = λ i h. ground (arith, v.numbered i, v.below key id flies);
      served = closed-served;
    }

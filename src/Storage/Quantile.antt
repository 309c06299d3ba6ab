-- ===== src/Storage/Quantile.antt =====
-- server/storage.go, `quantile`: the bin that a rank falls into.
use oginstagram.Base.{
  ℕ, suc, ◌+◌, ◌-◌, ◌≡◌, ◌≤◌, ◌<◌, ◌∙◌, ap, List, [], ◌∷◌, Option, some, leb, take, arith, by_cases,
  leb→le,
}
use oginstagram.Storage.{rank_bin}

-- The samples in the bins.
unfoldable pub samples : List ℕ → ℕ
samples [] = 0
samples (n ∷ ns) = n + samples ns

-- The bin of a sample's rank: the bins before it hold fewer samples, and with it at least as many.
RankIn : ℕ → ℕ → List ℕ → Option ℕ → Type 0
RankIn i rank ns o =
    (b : ℕ) × (o ≡ some (i + b)) × (samples (take b ns) < rank) × (rank ≤ samples (take (suc b) ns))

rank_bin-RankIn :
    (i rank : ℕ) (ns : List ℕ)
    → 1 ≤ rank
    → rank ≤ samples ns
    → RankIn i rank ns (rank_bin i rank ns)
unfolding rank_bin samples RankIn
rank_bin-RankIn i rank [] low high = absurd (omega arith)
rank_bin-RankIn i rank (n ∷ ns) low high =
    by_cases (RankIn i rank (n ∷ ns)) (leb rank n) (some i) (rank_bin (suc i) (rank - n) ns)
      (λ h.
        let fits = leb→le rank n h in
        (0, (let same : i ≡ i + 0 = omega arith in ap some same), omega arith, omega arith))
      (λ h.
        let (b, found, below, within) =
          rank_bin-RankIn (suc i) (rank - n) ns (ground arith) (ground arith) in
        let next : suc i + b ≡ i + suc b = omega arith in
        (suc b, found ∙ ap some next, omega (arith, below), omega (arith, within)))

-- The quantile of a rank from 1 to the number of samples is there, and its bin is that of the sample
-- with the rank: fewer samples lie in the bins before it, and with it at least as many.
pub rank_bin-samples :
    (rank : ℕ) (ns : List ℕ)
    → 1 ≤ rank
    → rank ≤ samples ns
    → (b : ℕ) × (rank_bin 0 rank ns ≡ some b)
      × (samples (take b ns) < rank)
      × (rank ≤ samples (take (suc b) ns))
unfolding RankIn
rank_bin-samples rank ns low high =
    let (b, found, below, within) = rank_bin-RankIn 0 rank ns low high in
    let same : 0 + b ≡ b = omega arith in (b, found ∙ ap some same, below, within)

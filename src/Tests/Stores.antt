-- ===== src/Tests/Stores.antt =====
-- Metrics on concrete inputs.
use oginstagram.Base.{ℕ, ◌≡◌, ◌≤◌, ◌<◌, refl, true, List, [], ◌∷◌, some, take, suc, arith}
use oginstagram.Base.Text.{codes}
use oginstagram.Storage.{Metrics, MetricKey, count_sample, flush_metrics, rank_bin}
use oginstagram.Storage.Flush.{total_of, flush_metrics-total}
use oginstagram.Storage.Quantile.{samples, rank_bin-samples}

abbrev metrics : Metrics
metrics = count_sample (codes "posts") 2 5 (record { bucket = 86_400; pending = []; stored = [] })

abbrev posts : MetricKey
posts = record { bucket = 86_400; category = codes "posts" }

flush_metrics-total_example :
    total_of posts (flush_metrics true 87_000 metrics) ≡ total_of posts metrics
flush_metrics-total_example = flush_metrics-total true 87_000 metrics posts refl

abbrev bins : List ℕ
bins = 1 ∷ 0 ∷ 4 ∷ 2 ∷ []

rank_bin-samples_example :
    (b : ℕ) × (rank_bin 0 3 bins ≡ some b)
    × (samples (take b bins) < 3)
    × (3 ≤ samples (take (suc b) bins))
unfolding samples
rank_bin-samples_example = rank_bin-samples 3 bins (omega arith) (omega arith)

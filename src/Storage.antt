-- ===== src/Storage.antt =====
-- server/storage.go, `RecordMetric`, `flushMetrics` and the quantiles of `Status`: the counts of outcomes and
-- latencies by bucket and category. The rows of this process in the database are a map, as are the
-- totals that wait; of two entries of a key the first counts. The clock, in seconds, the bin of a
-- latency, whose logarithm is floating-point, and the fate of the transaction are arguments.
pub mod Flush
pub mod Quantile
use oginstagram.Base.{
  ℕ, zero, suc, ◌+◌, ◌-◌, ◌*◌, ◌/◌, Bool, true, false, not, ◌&&◌, List, [], ◌∷◌, ◌++◌, Option, none,
  some, min, leb, ◌==◌, set, get_or, replicate, if◌then◌else◌,
}
use oginstagram.Base.Text.{Text, text_eq}
use oginstagram.Errors.{ErrorCode, is_transient}

abbrev pub metric_bucket_seconds : ℕ
metric_bucket_seconds = 600

abbrev pub metric_latency_bins : ℕ
metric_latency_bins = 64

abbrev pub metric_retention : ℕ
metric_retention = 24 * 60 * 60

pub record MetricKey : Type 0 where
  pub bucket : ℕ
  pub category : Text

pub record MetricBucket : Type 0 where
  pub outcomes : List ℕ
  pub latency : List ℕ

abbrev pub empty_bucket : MetricBucket
empty_bucket = record { outcomes = replicate 3 0; latency = replicate metric_latency_bins 0 }

abbrev pub Buckets : Type 0
Buckets = List (MetricKey × MetricBucket)

unfoldable pub same_key : MetricKey → MetricKey → Bool
unfolding text_eq
same_key a b = a.bucket == b.bucket && text_eq a.category b.category

unfoldable pub find_bucket : MetricKey → Buckets → Option MetricBucket
unfolding same_key
find_bucket k [] = none
find_bucket k (e ∷ es) = if same_key e.0 k then some e.1 else find_bucket k es

-- The entries whose key passes: `maps.DeleteFunc`, and `DELETE … WHERE`.
unfoldable pub keep_buckets : (ℕ → Bool) → Buckets → Buckets
keep_buckets p [] = []
keep_buckets p (e ∷ es) = let rest = keep_buckets p es in if p e.0.bucket then e ∷ rest else rest

pub record Metrics : Type 0 where
  pub bucket : ℕ
  pub pending : Buckets
  pub stored : Buckets

abbrev pub bucket_of : ℕ → ℕ
bucket_of now = now / metric_bucket_seconds * metric_bucket_seconds

-- The rows behind a commit: the totals replace the rows of their keys, and old rows go.
unfoldable pub commit : ℕ → Metrics → Metrics
unfolding keep_buckets
commit now m = record {
  bucket = bucket_of now;
  pending = keep_buckets (λ b. b == bucket_of now) m.pending;
  stored = keep_buckets (λ b. leb (now - metric_retention) b) (m.pending ++ m.stored);
}

-- By the totals that wait: without any, nothing is written, and a transaction that fails leaves them.
unfoldable pub flush_by : Buckets → Bool → ℕ → Metrics → Metrics
unfolding commit
flush_by [] committed now m = record m { bucket = bucket_of now }
flush_by (e ∷ es) true now m = commit now m
flush_by (e ∷ es) false now m = record m { bucket = bucket_of now }

unfoldable pub flush_metrics : Bool → ℕ → Metrics → Metrics
unfolding flush_by
flush_metrics committed now m = flush_by m.pending committed now m

-- Resolved, restricted or failed.
unfoldable pub outcome_of : ℕ → ErrorCode → ℕ
unfolding is_transient
outcome_of status error_type =
    if leb 400 status then (if is_transient error_type then 2 else 1) else 0

abbrev pub bump : List ℕ → ℕ → List ℕ
bump ns i = set ns i (get_or ns i 0 + 1)

unfoldable pub add_sample : ℕ → ℕ → MetricBucket → MetricBucket
add_sample outcome bin b = record {
  outcomes = bump b.outcomes outcome;
  latency = bump b.latency bin;
}

abbrev pub or_empty : Option MetricBucket → MetricBucket
or_empty none = empty_bucket
or_empty (some b) = b

-- A sample in the open bucket.
unfoldable pub count_sample : Text → ℕ → ℕ → Metrics → Metrics
unfolding add_sample find_bucket
count_sample category outcome bin m =
    let key : MetricKey = record { bucket = m.bucket; category = category } in
    record m {
      pending = (key, add_sample outcome bin (or_empty (find_bucket key m.pending))) ∷ m.pending;
    }

unfoldable pub record_metric : Bool → ℕ → Text → ℕ → ℕ → ErrorCode → Metrics → Metrics
unfolding flush_metrics count_sample outcome_of
record_metric committed now category bin status error_type m =
    count_sample category (outcome_of status error_type) (min (metric_latency_bins - 1) bin)
      (if not (bucket_of now == m.bucket) then flush_metrics committed now m else m)

-- The loop of `quantile`: the bin that the rank falls into, from the bin `i` on.
unfoldable pub rank_bin : ℕ → ℕ → List ℕ → Option ℕ
rank_bin i rank [] = none
rank_bin i rank (n ∷ ns) = if leb rank n then some i else rank_bin (suc i) (rank - n) ns

-- ===== src/Storage/Flush.antt =====
-- server/storage.go: what a flush leaves of the metrics, whether its transaction succeeds or not.
use oginstagram.Base.{
  ℕ, ◌-◌, ◌≡◌, refl, ap, sym, subst, ◌∙◌, Bool, true, false, [], ◌∷◌, ◌++◌, Option, none, some, leb,
  ◌==◌, if◌then◌else◌, arith, by_cases,
}
use oginstagram.Storage.{
  MetricKey, MetricBucket, Buckets, Metrics, same_key, find_bucket, keep_buckets, bucket_of, commit,
  flush_by, flush_metrics, metric_retention,
}

abbrev or_find : Option MetricBucket → Option MetricBucket → Option MetricBucket
or_find none o = o
or_find (some b) o = some b

-- What the page and the database together know of a key: the total that waits, or the row.
unfoldable pub total_of : MetricKey → Metrics → Option MetricBucket
total_of k m = or_find (find_bucket k m.pending) (find_bucket k m.stored)

find_bucket-append :
    (k : MetricKey) (xs ys : Buckets)
    → find_bucket k (xs ++ ys) ≡ or_find (find_bucket k xs) (find_bucket k ys)
unfolding find_bucket
find_bucket-append k [] ys = refl
find_bucket-append k (x ∷ xs) ys = ground (arith, find_bucket-append k xs ys)

same_key-bucket : (a b : MetricKey) → same_key a b ≡ true → a.bucket ≡ b.bucket
unfolding same_key
same_key-bucket a b h = ground arith

find_bucket-keep :
    (k : MetricKey) (p : ℕ → Bool) (xs : Buckets)
    → find_bucket k (keep_buckets p xs) ≡ (if p k.bucket then find_bucket k xs else none)
unfolding find_bucket keep_buckets
find_bucket-keep k p [] = ground arith
find_bucket-keep k p (x ∷ xs) =
    let same : same_key x.0 k ≡ true → p x.0.bucket ≡ p k.bucket =
      λ h. ap p (same_key-bucket x.0 k h) in
    let rest = find_bucket-keep k p xs in
    by_cases
      (λ (zs : Buckets). find_bucket k zs ≡ (if p k.bucket then find_bucket k (x ∷ xs) else none))
      (p x.0.bucket) (x ∷ keep_buckets p xs) (keep_buckets p xs) (λ h. ground (arith, same, rest))
      (λ h. ground (arith, same, rest))

merge_lem :
    (b : Bool) (p o : Option MetricBucket)
    → or_find (if b then p else none) (or_find p o) ≡ or_find p o
merge_lem b none o = ground arith
merge_lem true (some x) o = refl
merge_lem false (some x) o = refl

commit-total :
    (now : ℕ) (m : Metrics) (k : MetricKey)
    → leb (now - metric_retention) k.bucket ≡ true
    → total_of k (commit now m) ≡ total_of k m
unfolding total_of commit
commit-total now m k young =
    let kept = find_bucket-keep k (λ b. b == bucket_of now) m.pending in
    let rows = find_bucket-keep k (λ b. leb (now - metric_retention) b) (m.pending ++ m.stored) in
    let both = find_bucket-append k m.pending m.stored in
    let found = or_find (find_bucket k m.pending) (find_bucket k m.stored) in
    let all : find_bucket k (commit now m).stored ≡ found =
      rows
      ∙ subst (λ y. (if y then find_bucket k (m.pending ++ m.stored) else none) ≡ found) (sym young)
          both in
    ap (λ o. or_find o (find_bucket k (commit now m).stored)) kept
    ∙ ap (or_find (if k.bucket == bucket_of now then find_bucket k m.pending else none)) all
    ∙ merge_lem (k.bucket == bucket_of now) (find_bucket k m.pending) (find_bucket k m.stored)

flush_by-total :
    (waiting : Buckets) (committed : Bool) (now : ℕ) (m : Metrics) (k : MetricKey)
    → leb (now - metric_retention) k.bucket ≡ true
    → total_of k (flush_by waiting committed now m) ≡ total_of k m
unfolding flush_by total_of
flush_by-total [] committed now m k young = refl
flush_by-total (e ∷ es) true now m k young = commit-total now m k young
flush_by-total (e ∷ es) false now m k young = refl

-- Of a bucket that starts within the last day, a flush changes nothing that the waiting totals and the
-- rows together tell, whether its transaction is committed or fails.
pub flush_metrics-total :
    (committed : Bool) (now : ℕ) (m : Metrics) (k : MetricKey)
    → leb (now - metric_retention) k.bucket ≡ true
    → total_of k (flush_metrics committed now m) ≡ total_of k m
unfolding flush_metrics
flush_metrics-total committed now m k young = flush_by-total m.pending committed now m k young

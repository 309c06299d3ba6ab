-- ===== src/Routes/Paths.antt =====
-- Splitting a path at its slashes undoes joining it.
use oginstagram.Base.{
  ℕ, ◌≡◌, ◌≢◌, refl, ap, ◌∙◌, true, false, not, List, [], ◌∷◌, ◌++◌, arith, ◌==◌, all, All,
}
use oginstagram.Base.Text.{Text}
use oginstagram.Routes.{prepend, split, join, trim_left, trim_right, split_path}

-- A text without the byte, and one that is not empty either.
abbrev pub Lacks : ℕ → Text → Type 0
Lacks c s = all (λ d. not (d == c)) s ≡ true

abbrev pub IsSegment : Text → Type 0
IsSegment s = (s ≢ []) × Lacks b'/' s

module _ (c : ℕ) where
  pub split-Lacks : (p : Text) → Lacks c p → split c p ≡ p ∷ []
  unfolding split prepend
  split-Lacks [] h = refl
  split-Lacks (d ∷ p) h = ground (arith, split-Lacks p)

  pub split-append : (p s : Text) → Lacks c p → split c (p ++ c ∷ s) ≡ p ∷ split c s
  unfolding split prepend
  split-append [] s h = ground arith
  split-append (d ∷ p) s h = ground (arith, split-append p s)

  pub split-join :
      (p : Text) (ps : List Text) → All (Lacks c) (p ∷ ps) → split c (join c (p ∷ ps)) ≡ p ∷ ps
  unfolding join
  split-join p [] (h, _) = split-Lacks p h
  split-join p (q ∷ ps) (h, hs) =
      split-append p (join c (q ∷ ps)) h ∙ ap (◌∷◌ p) (split-join q ps hs)

  trim_right-Lacks : (s : Text) → Lacks c s → trim_right c s ≡ s
  unfolding trim_right
  trim_right-Lacks [] h = refl
  trim_right-Lacks (d ∷ []) h = ground arith
  trim_right-Lacks (d ∷ e ∷ s) h = ground (arith, trim_right-Lacks (e ∷ s))

  trim_right-append :
      (s : Text) (d : ℕ) (t : Text)
      → trim_right c (d ∷ t) ≡ d ∷ t
      → trim_right c (s ++ d ∷ t) ≡ s ++ d ∷ t
  unfolding trim_right
  trim_right-append [] d t h = h
  trim_right-append (e ∷ []) d t h = ground (arith, h)
  trim_right-append (e ∷ f ∷ s) d t h = ground (arith, trim_right-append (f ∷ s) d t h)

join-trim_right :
    (p : Text) (ps : List Text)
    → All IsSegment (p ∷ ps)
    → (d : ℕ) × (t : Text) × (join b'/' (p ∷ ps) ≡ d ∷ t)
      × (trim_right b'/' (d ∷ t) ≡ d ∷ t)
      × ((d == b'/') ≡ false)
unfolding join
join-trim_right [] ps (h, _) = absurd (h.0 refl)
join-trim_right (d ∷ p) [] (h, _) = (d, p, refl, trim_right-Lacks b'/' (d ∷ p) h.1, ground arith)
join-trim_right (d ∷ p) (q ∷ ps) (h, hs) =
    let (e, t, joined, fixed, _) = join-trim_right q ps hs in
    (
      d,
      p ++ b'/' ∷ join b'/' (q ∷ ps),
      refl,
      trim_right-append b'/' (d ∷ p) b'/' (join b'/' (q ∷ ps))
          (rw joined (trim_right-append b'/' (b'/' ∷ []) e t fixed)),
      ground arith,
    )

Segments-Lacks : (ps : List Text) → All IsSegment ps → All (Lacks b'/') ps
Segments-Lacks [] h = tt
Segments-Lacks (p ∷ ps) (h, hs) = (h.1, Segments-Lacks ps hs)

-- A path is split into the segments that it was joined from.
pub split_path-join :
    (p : Text) (ps : List Text)
    → All IsSegment (p ∷ ps)
    → split_path (b'/' ∷ join b'/' (p ∷ ps)) ≡ p ∷ ps
unfolding split_path trim_left
split_path-join p ps h =
    let (d, t, joined, fixed, other) = join-trim_right p ps h in
    let splits = split-join b'/' p ps (Segments-Lacks (p ∷ ps) h) in
    ground (arith, joined, fixed, other, splits)

-- ===== src/Story/Door/Window.antt =====
-- The door remembers exactly the latest hundred answers.
use native.Mathlib.Nat.{add-zero, zero-add}
use oginstagram.Base.{
  ℕ, suc, ◌+◌, ◌*◌, ◌%◌, ◌<◌, ◌≡◌, refl, sym, ap, ◌∙◌, Bool, false, ◌&&◌, List, [], ◌∷◌, ◌++◌,
  arith, ltb, leb, min, length, length-set, get_or, set, replicate, drop,
}
use oginstagram.Base.Ring.{
  count_true, count_true-set, count_true-window, flag-le-count_true, next_position-lt, window,
  window-set, window-head, window-length, get_or-replicate, get_or-slide, slide, slide_all,
  slide_all-drop,
}
use oginstagram.Story.Door.{Door, init, enter, closed, ring_size, closed_percent}

pub run : Door → List Bool → Door
run d [] = d
run d (b ∷ bs) = run (closed d b).0 bs

-- The door against the list of its latest hundred answers, of which `seen` have been given.
record Tracks (d : Door) (w : List Bool) (seen : ℕ) : Type 0 where
  size : length d.ring ≡ ring_size
  position : d.i < ring_size
  content : window d.i d.ring ≡ w
  counted : d.hidden ≡ count_true w
  number : d.n ≡ min seen ring_size
  padding : (k : ℕ) → k + seen < ring_size → get_or w k false ≡ false

init-Tracks : Tracks init (replicate ring_size false) 0
init-Tracks = record {
  size = refl;
  position = omega arith;
  content = refl;
  counted = refl;
  number = refl;
  padding = λ k h. get_or-replicate ring_size k;
}

module _ (d : Door) (w : List Bool) (seen : ℕ) (b : Bool) (t : Tracks d w seen) where
  oldest : get_or w 0 false ≡ get_or d.ring d.i false
  oldest = rw (← t.content) (window-head d.i d.ring (omega (arith, t.size, t.position)))

  -- Nothing was written yet where the position stands.
  unfilled : seen < ring_size → get_or d.ring d.i false ≡ false
  unfilled h = sym oldest ∙ t.padding 0 (omega arith)

  wide : length w ≡ ring_size
  wide = rw (← t.content) (window-length d.i d.ring ∙ t.size)

  slid : count_true (set d.ring d.i b) ≡ count_true (slide w b)
  slid =
      sym (count_true-window ((d.i + 1) % ring_size) (set d.ring d.i b))
      ∙ ap count_true (window-set ring_size d.i d.ring b t.size t.position)
      ∙ ap (λ v. count_true (slide v b)) t.content

  held : count_true d.ring ≡ count_true w
  held = sym (count_true-window d.i d.ring) ∙ ap count_true t.content

  enter-Tracks : Tracks (enter d b) (slide w b) (suc seen)
  unfolding enter
  enter-Tracks = record {
    size = length-set d.ring d.i b ∙ t.size;
    position = next_position-lt ring_size d.i t.position;
    content = window-set ring_size d.i d.ring b t.size t.position ∙ ap (λ v. slide v b) t.content;
    counted = ground (
      arith,
      count_true-set d.ring d.i b,
      flag-le-count_true d.ring d.i,
      slid,
      held,
      unfilled,
      t.number,
    );
    number = ground (arith, t.number);
    padding = λ k h. get_or-slide k w b (omega (arith, wide)) ∙ t.padding (suc k) (omega arith);
  }

closed_state : (d : Door) (b : Bool) → (closed d b).0 ≡ enter d b
unfolding closed
closed_state d b = refl

run-Tracks :
    (d : Door) (w : List Bool) (seen : ℕ) (h : List Bool)
    → Tracks d w seen
    → Tracks (run d h) (slide_all w h) (seen + length h)
unfolding run
run-Tracks d w seen [] t = rw add-zero t
run-Tracks d w seen (b ∷ bs) t =
    let next = run-Tracks (enter d b) (slide w b) (suc seen) bs (enter-Tracks d w seen b t) in
    let e : suc seen + length bs ≡ seen + length (b ∷ bs) = omega arith in
    rw (closed_state d b, ← e) next

-- The latest hundred of the answers `h`, where fewer than a hundred are filled up with `false`.
abbrev pub latest : List Bool → List Bool
latest h = drop (length h) (replicate ring_size false ++ h)

init-run-Tracks : (h : List Bool) → Tracks (run init h) (latest h) (length h)
init-run-Tracks h =
    rw (slide_all-drop (replicate ring_size false) h (omega arith), zero-add) at
      (run-Tracks init (replicate ring_size false) 0 h init-Tracks)

slide_all-append :
    (w h : List Bool) (b : Bool) → slide_all w (h ++ b ∷ []) ≡ slide (slide_all w h) b
slide_all-append w [] b = refl
slide_all-append w (c ∷ h) b = slide_all-append (slide w c) h b

latest-slide : (h : List Bool) (b : Bool) → slide (latest h) b ≡ latest (h ++ b ∷ [])
latest-slide h b =
    let start = replicate ring_size false in
    ap (λ v. slide v b) (sym (slide_all-drop start h (omega arith)))
    ∙ sym (slide_all-append start h b)
    ∙ slide_all-drop start (h ++ b ∷ []) (omega arith)

closed_answer :
    (d : Door) (b : Bool)
    → (closed d b).1 ≡ (
        leb 50 (enter d b).n
        && ltb ((enter d b).n * closed_percent) ((enter d b).hidden * 100)
        && b)
unfolding closed
closed_answer d b = refl

-- After any answers `h`, a story is left to the helper exactly when it was itself answered as hidden,
-- at least fifty answers are known, and more than forty percent of the latest hundred, itself
-- included, were answered as hidden.
pub closed-latest :
    (h : List Bool) (b : Bool)
    → let known = min (length h + 1) ring_size in
      (closed (run init h) b).1 ≡ (
        leb 50 known && ltb (known * closed_percent) (count_true (latest (h ++ b ∷ [])) * 100) && b)
closed-latest h b =
    let t = enter-Tracks (run init h) (latest h) (length h) b (init-run-Tracks h) in
    let share = t.counted ∙ ap count_true (latest-slide h b) in
    let known : (enter (run init h) b).n ≡ min (length h + 1) ring_size = omega (arith, t.number) in
    rw (closed_answer, known, share)

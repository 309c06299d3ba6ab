-- ===== src/Story/Door.antt =====
-- server/story.go, `storySideDoor`: when too many live stories are answered by the code of a hidden
-- post, the query is taken to serve stories no more. The log line and its time are left out.
pub mod Window
use oginstagram.Base.{
  ℕ, zero, suc, ◌+◌, ◌-◌, ◌*◌, ◌/◌, ◌%◌, ◌≤◌, ◌<◌, ◌≡◌, ◌↔◌, refl, sym, ap, ◌∙◌, Bool, true, false,
  ◌&&◌, List, [], ◌∷◌, ◌++◌, arith, ltb, leb, ◌==◌, min, if◌then◌else◌, length, length-set,
  length-append, get_or, set, replicate, drop, Bool-cases, inl, inr, append_assoc,
}
use oginstagram.Base.Ring.{
  flag, count_true, count_true-set, count_true-window, count_true-le, flag-le-count_true,
  next_position-lt, window, window-set, window-head, window-length, get_or-replicate, get_or-slide,
  slide,
}

abbrev pub ring_size : ℕ
ring_size = 100

abbrev pub closed_percent : ℕ
closed_percent = 40

-- `ring` holds `true` for a story that was answered as hidden.
pub record Door : Type 0 where
  pub ring : List Bool
  pub n : ℕ
  pub i : ℕ
  pub hidden : ℕ

abbrev pub init : Door
init = record { ring = replicate ring_size false; n = 0; i = 0; hidden = 0 }

unfoldable pub enter : Door → Bool → Door
enter d hidden = record {
  ring = set d.ring d.i hidden;
  n = if d.n == ring_size then d.n else d.n + 1;
  i = (d.i + 1) % ring_size;
  hidden =
      (if d.n == ring_size && get_or d.ring d.i false then d.hidden - 1 else d.hidden)
      + (if hidden then 1 else 0);
}

-- The new state, and the answer: is the story left to the helper?
unfoldable pub closed : Door → Bool → Door × Bool
unfolding enter
closed d hidden =
    let e = enter d hidden in
    (e, leb (ring_size / 2) e.n && ltb (e.n * closed_percent) (e.hidden * 100) && hidden)

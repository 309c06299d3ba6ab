-- ===== src/Linkify/Shown.antt =====
-- server/linkify.go: the links of a caption lie apart and in order, and every character is shown once.
use oginstagram.Base.{
  ℕ, zero, suc, ◌+◌, ◌-◌, ◌≡◌, ◌≤◌, ◌<◌, ◌⊎◌, refl, ap, false, ◌||◌, List, [], ◌∷◌, ◌++◌,
  append-nil, ◌||◌, none, take, drop, any, length, ltb, leb, All, arith, by_cases, both_branches,
}
use oginstagram.Base.Text.{Text}
use oginstagram.Linkify.{
  LinkSpan, slice, overlaps, add_span, add_spans, insert_span, sort_spans, Patterns, scheme_spans,
  account_spans, scan_sigil, account_href, tag_href, detect_links, Piece, plain, link, pieces,
}

-- A span of the text with a character in it.
abbrev pub IsWithin : Text → LinkSpan → Type 0
IsWithin text s = (s.start < s.stop) × (s.stop ≤ length text)

abbrev pub IsApart : LinkSpan → LinkSpan → Type 0
IsApart s t = (s.stop ≤ t.start) ⊎ (t.stop ≤ s.start)

unfoldable Apart : Text → List LinkSpan → Type 0
Apart text [] = Unit
Apart text (s ∷ ss) = IsWithin text s × All (IsApart s) ss × Apart text ss

-- In order from a position on.
unfoldable pub Ordered : Text → ℕ → List LinkSpan → Type 0
Ordered text last [] = last ≤ length text
Ordered text last (s ∷ ss) = (last ≤ s.start) × (s.start < s.stop) × Ordered text s.stop ss

any-IsApart :
    (s : LinkSpan) (ss : List LinkSpan)
    → any (overlaps s.start s.stop) ss ≡ false
    → All (IsApart s) ss
any-IsApart s [] h = tt
any-IsApart s (t ∷ ts) h = (ground arith, any-IsApart s ts (ground arith))

add_span-Apart :
    (text : Text) (s : LinkSpan) (ss : List LinkSpan)
    → Apart text ss
    → Apart text (add_span text s ss)
unfolding add_span Apart
add_span-Apart text s ss h =
    by_cases (Apart text)
      (ltb (length text) s.stop || leb s.stop s.start || any (overlaps s.start s.stop) ss) ss
      (s ∷ ss) (λ e. h) (λ e. (ground arith, any-IsApart s ss (ground arith), h))

add_spans-Apart :
    (text : Text) (ss spans : List LinkSpan)
    → Apart text spans
    → Apart text (add_spans text ss spans)
unfolding add_spans
add_spans-Apart text [] spans h = h
add_spans-Apart text (s ∷ ss) spans h =
    add_spans-Apart text ss (add_span text s spans) (add_span-Apart text s spans h)

insert_span-All :
    (P : LinkSpan → Type 0) (s : LinkSpan) (ss : List LinkSpan)
    → P s
    → All P ss
    → All P (insert_span s ss)
unfolding insert_span
insert_span-All P s [] p h = (p, tt)
insert_span-All P s (t ∷ ts) p h =
    both_branches (All P) (leb s.start t.start) (s ∷ t ∷ ts) (t ∷ insert_span s ts) (p, h)
      (h.0, insert_span-All P s ts p h.1)

sort_spans-All : (P : LinkSpan → Type 0) (ss : List LinkSpan) → All P ss → All P (sort_spans ss)
unfolding sort_spans
sort_spans-All P [] h = tt
sort_spans-All P (s ∷ ss) h = insert_span-All P s (sort_spans ss) h.0 (sort_spans-All P ss h.1)

insert_span-Ordered :
    (text : Text) (last : ℕ) (s : LinkSpan) (ss : List LinkSpan)
    → IsWithin text s
    → last ≤ s.start
    → All (IsApart s) ss
    → Ordered text last ss
    → Ordered text last (insert_span s ss)
unfolding insert_span Ordered
insert_span-Ordered text last s [] w l a o = (l, w.0, w.1)
insert_span-Ordered text last s (t ∷ ts) w l a o =
    by_cases (Ordered text last) (leb s.start t.start) (s ∷ t ∷ ts) (t ∷ insert_span s ts)
      (λ e. (l, w.0, (ground arith, o.1, o.2)))
      (λ e. (o.0, o.1, insert_span-Ordered text t.stop s ts w (ground arith) a.1 o.2))

sort_spans-Ordered :
    (text : Text) (ss : List LinkSpan) → Apart text ss → Ordered text 0 (sort_spans ss)
unfolding sort_spans Ordered Apart
sort_spans-Ordered text [] h = omega arith
sort_spans-Ordered text (s ∷ ss) h =
    insert_span-Ordered text 0 s (sort_spans ss) h.0 (omega arith)
      (sort_spans-All (IsApart s) ss h.1) (sort_spans-Ordered text ss h.2)

nothing-Apart : (text : Text) → Apart text []
unfolding Apart
nothing-Apart text = tt

detect_links-Ordered : (p : Patterns) (text : Text) → Ordered text 0 (detect_links p text)
unfolding detect_links
detect_links-Ordered p text =
    let links = add_spans text (scheme_spans text (p.schemes text)) [] in
    let accounts =
      account_spans text (scan_sigil p.is_word account_href text none (p.mentions text)) in
    let tags = scan_sigil p.is_word (tag_href p.query_escape) text none (p.hashtags text) in
    sort_spans-Ordered text (add_spans text tags (add_spans text accounts links)) (
      add_spans-Apart text tags (add_spans text accounts links) (
        add_spans-Apart text accounts links
          (add_spans-Apart text (scheme_spans text (p.schemes text)) [] (nothing-Apart text))))

take-drop : (n : ℕ) (text : Text) → take n text ++ drop n text ≡ text
take-drop zero text = refl
take-drop (suc n) [] = refl
take-drop (suc n) (c ∷ text) = ap (λ t. c ∷ t) (take-drop n text)

drop-drop : (m n k : ℕ) (text : Text) → k ≡ m + n → drop n (drop m text) ≡ drop k text
drop-drop zero n k text h = ap (λ i. drop i text) (omega arith)
drop-drop (suc m) n zero text h = absurd (omega arith)
drop-drop (suc m) zero (suc k) [] h = refl
drop-drop (suc m) (suc n) (suc k) [] h = refl
drop-drop (suc m) n (suc k) (c ∷ text) h = drop-drop m n k text (omega arith)

slice-drop :
    (text : Text) (start stop : ℕ)
    → start ≤ stop
    → slice text start stop ++ drop stop text ≡ drop start text
slice-drop text start stop h =
    let rest = drop-drop start (stop - start) stop text (omega arith) in
    let whole = take-drop (stop - start) (drop start text) in rw (← rest) whole

-- The characters that a reader sees.
unfoldable pub shown : List Piece → Text
shown [] = []
shown (plain t ∷ ps) = t ++ shown ps
shown (link href t ∷ ps) = t ++ shown ps

shown-pieces :
    (text : Text) (last : ℕ) (ss : List LinkSpan)
    → Ordered text last ss
    → shown (pieces text last ss) ≡ drop last text
unfolding pieces shown Ordered
shown-pieces text last [] h = append-nil (drop last text)
shown-pieces text last (s ∷ ss) h =
    let rest = shown-pieces text s.stop ss h.2 in
    let here = slice-drop text s.start s.stop (omega arith) in
    let before = slice-drop text last s.start h.0 in rw (rest, here) before

-- The links of a caption lie inside the text, in order and apart, and what a reader of the written
-- pieces sees is the text, every character once and in its place, whatever the patterns match.
pub shown-detect_links :
    (p : Patterns) (text : Text)
    → Ordered text 0 (detect_links p text) × (shown (pieces text 0 (detect_links p text)) ≡ text)
shown-detect_links p text = (
  detect_links-Ordered p text,
  shown-pieces text 0 (detect_links p text) (detect_links-Ordered p text),
)

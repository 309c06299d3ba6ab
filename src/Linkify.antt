-- ===== src/Linkify.antt =====
-- server/linkify.go: the links of a caption. A text is a list of code points, and positions count them.
-- The matches of the three patterns, `url.QueryEscape` and the class of word runes are parameters.
-- The newest span stands first; which runes are occupied is read off the spans.
pub mod Shown
pub mod Visible
use oginstagram.Base.{
  ℕ, suc, ◌+◌, ◌-◌, Bool, true, false, not, ◌&&◌, ◌||◌, List, [], ◌∷◌, ◌++◌, Option, none, some,
  reverse, get_or, take, drop, any, length, ltb, leb, ◌==◌, if◌then◌else◌,
}
use oginstagram.Base.Strings.{has_part}
use oginstagram.Base.Text.{Text, codes, text_eq}
use oginstagram.Gateway.Resolve.{instagram_origin}
use oginstagram.Routes.{valid_username}

pub record LinkSpan : Type 0 where
  pub start : ℕ
  pub stop : ℕ
  pub href : Text

-- `text[start:stop]`
abbrev pub slice : Text → ℕ → ℕ → Text
slice text start stop = take (stop - start) (drop start text)

abbrev pub overlaps : ℕ → ℕ → LinkSpan → Bool
overlaps start stop s = ltb start s.stop && ltb s.start stop

-- `add` of `detectLinks`.
unfoldable pub add_span : Text → LinkSpan → List LinkSpan → List LinkSpan
add_span text s spans =
    if ltb (length text) s.stop || leb s.stop s.start || any (overlaps s.start s.stop) spans
    then spans
    else s ∷ spans

unfoldable pub add_spans : Text → List LinkSpan → List LinkSpan → List LinkSpan
unfolding add_span
add_spans text [] spans = spans
add_spans text (s ∷ ss) spans = add_spans text ss (add_span text s spans)

abbrev pub trail : Text
trail = codes ".,;:!?'\"”’»…"

abbrev pub is_trail : ℕ → Bool
is_trail r = any (λ c. c == r) trail

-- The opening bracket of a closing one.
unfoldable pub opening : ℕ → Option ℕ
opening r =
    if r == b')'
    then some b'('
    else if r == b']'
    then some b'['
    else if r == b'}'
    then some b'{'
    else none

unfoldable pub count_rune : Text → ℕ → ℕ
count_rune [] c = 0
count_rune (d ∷ s) c = (if d == c then 1 else 0) + count_rune s c

-- The loop of `trimURLEnd` on the reversed link, with its counters.
unfoldable pub trim_end : (ℕ → ℕ) → Text → Text
unfolding opening
trim_end count [] = []
trim_end count (r ∷ rest) = elim (is_trail r) [
  | true ↦ trim_end count rest
  | false ↦ elim (opening r) [
    | none ↦ r ∷ rest
    | some o ↦ elim (leb (count r) (count o)) [
      | true ↦ r ∷ rest
      | false ↦ trim_end (λ c. if c == r then count c - 1 else count c) rest
    ]
  ]
]

-- The end that is left.
unfoldable pub trim_url_end : Text → ℕ → ℕ → ℕ
unfolding trim_end count_rune
trim_url_end text start stop =
    let link = slice text start stop in start + length (trim_end (count_rune link) (reverse link))

unfoldable pub scheme_spans : Text → List (ℕ × ℕ) → List LinkSpan
unfolding trim_url_end
scheme_spans text [] = []
scheme_spans text (m ∷ ms) =
    let stop = trim_url_end text m.0 m.1 in
    record { start = m.0; stop = stop; href = slice text m.0 stop } ∷ scheme_spans text ms

unfoldable pub boundary_ok : (ℕ → Bool) → Text → ℕ → Bool
boundary_ok is_word text start =
    if start == 0
    then true
    else (let r = get_or text (start - 1) 0 in
        not (is_word r) && not (r == b'@') && not (r == b'#'))

-- `scanSigil`, with the end of the match taken last.
unfoldable pub scan_sigil :
    (ℕ → Bool) → (Text → Text) → Text → Option ℕ → List (ℕ × ℕ) → List LinkSpan
unfolding boundary_ok
scan_sigil is_word href text last [] = []
scan_sigil is_word href text last (m ∷ ms) =
    let follows : Bool = elim last [ none ↦ false | some end ↦ m.0 == end ] in
    elim (follows || boundary_ok is_word text m.0) [
      | true ↦
          record { start = m.0; stop = m.1; href = href (slice text (m.0 + 1) m.1) }
          ∷ scan_sigil is_word href text (some m.1) ms
      | false ↦ scan_sigil is_word href text last ms
    ]

-- The mentions that can be accounts.
unfoldable pub account_spans : Text → List LinkSpan → List LinkSpan
account_spans text [] = []
account_spans text (s ∷ ss) =
    let rest = account_spans text ss in
    let handle = slice text (s.start + 1) s.stop in
    if valid_username handle && not (has_part handle (codes "..")) then s ∷ rest else rest

unfoldable pub insert_span : LinkSpan → List LinkSpan → List LinkSpan
insert_span s [] = s ∷ []
insert_span s (t ∷ ts) =
    let rest = insert_span s ts in if leb s.start t.start then s ∷ t ∷ ts else t ∷ rest

-- `sort.Slice` by the start.
unfoldable pub sort_spans : List LinkSpan → List LinkSpan
unfolding insert_span
sort_spans [] = []
sort_spans (s ∷ ss) = insert_span s (sort_spans ss)

-- The patterns' matches in a text.
pub record Patterns : Type 0 where
  pub schemes : Text → List (ℕ × ℕ)
  pub mentions : Text → List (ℕ × ℕ)
  pub hashtags : Text → List (ℕ × ℕ)
  pub is_word : ℕ → Bool
  pub query_escape : Text → Text

abbrev pub account_href : Text → Text
account_href handle = instagram_origin ++ codes "/" ++ handle

abbrev pub tag_href : (Text → Text) → Text → Text
tag_href query_escape tag =
    instagram_origin ++ codes "/explore/search/keyword/?q=%23" ++ query_escape tag

unfoldable pub detect_links : Patterns → Text → List LinkSpan
unfolding add_spans scheme_spans scan_sigil account_spans sort_spans
detect_links p text =
    let links = add_spans text (scheme_spans text (p.schemes text)) [] in
    let accounts =
      account_spans text (scan_sigil p.is_word account_href text none (p.mentions text)) in
    let tags = scan_sigil p.is_word (tag_href p.query_escape) text none (p.hashtags text) in
    sort_spans (add_spans text tags (add_spans text accounts links))

-- `html.EscapeString`
unfoldable pub escape_rune : ℕ → Text
escape_rune c =
    if c == b'&'
    then codes "&amp;"
    else if c == b'<'
    then codes "&lt;"
    else if c == b'>'
    then codes "&gt;"
    else if c == b'"'
    then codes "&#34;"
    else if c == b'\''
    then codes "&#39;"
    else c ∷ []

unfoldable pub escape : Text → Text
unfolding escape_rune
escape [] = []
escape (c ∷ s) = escape_rune c ++ escape s

-- `brHTML`
unfoldable pub br_html : Text → Text
br_html [] = []
br_html (c ∷ s) = (if c == 10 then codes "<br>" else c ∷ []) ++ br_html s

-- What `captionHTML` writes: text between the links, and links.
pub data Piece : Type 0 where
  plain : Text → Piece
  link : Text → Text → Piece

unfoldable pub pieces : Text → ℕ → List LinkSpan → List Piece
pieces text last [] = plain (drop last text) ∷ []
pieces text last (s ∷ ss) =
    plain (slice text last s.start)
    ∷ link s.href (slice text s.start s.stop)
    ∷ pieces text s.stop ss

unfoldable pub write_piece : Piece → Text
unfolding escape br_html
write_piece (plain t) = br_html (escape t)
write_piece (link href t) =
    codes "<a href=\"" ++ escape href ++ codes "\">" ++ escape t ++ codes "</a>"

unfoldable pub write_pieces : List Piece → Text
unfolding write_piece
write_pieces [] = []
write_pieces (p ∷ ps) = write_piece p ++ write_pieces ps

unfoldable pub caption_html : Patterns → Text → Text
unfolding detect_links pieces write_pieces
caption_html p text = write_pieces (pieces text 0 (detect_links p text))

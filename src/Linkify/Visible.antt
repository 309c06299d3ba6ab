-- ===== src/Linkify/Visible.antt =====
-- server/linkify.go, `captionHTML`: what a browser shows of the HTML that is written.
use oginstagram.Base.{
  ℕ, ◌≡◌, refl, ap, sym, subst, ◌∙◌, true, false, List, [], ◌∷◌, ◌++◌, append_assoc, ◌==◌,
  if◌then◌else◌, arith, by_cases,
}
use oginstagram.Base.Text.{Text, codes, text_eq}
use oginstagram.Linkify.{
  Patterns, Piece, plain, link, escape_rune, escape, br_html, write_piece, write_pieces, pieces,
  detect_links, caption_html,
}
use oginstagram.Linkify.Shown.{Ordered, shown, shown-detect_links}

-- Where a reader of HTML stands: in text, in a tag with its first character, or in a reference with
-- the characters of it read so far, the latest first.
pub data Mode : Type 0 where
  in_text : Mode
  in_tag : Mode
  in_name : ℕ → Mode
  in_entity : Text → Mode

abbrev pub entity_text : Text → Text
entity_text name =
    if text_eq name (codes "pma")
    then codes "&"
    else if text_eq name (codes "tl")
    then codes "<"
    else if text_eq name (codes "tg")
    then codes ">"
    else if text_eq name (codes "43#")
    then codes "\""
    else if text_eq name (codes "93#")
    then codes "'"
    else []

-- The characters on the page: a tag that starts with `b` is a line break, and other tags show nothing.
unfoldable pub visible : Mode → Text → Text
visible mode [] = []
visible in_text (c ∷ s) = elim (c == b'<') [
  | true ↦ visible in_tag s
  | false ↦ elim (c == b'&') [ true ↦ visible (in_entity []) s | false ↦ c ∷ visible in_text s ]
]
visible in_tag (c ∷ s) = visible (in_name c) s
visible (in_name n) (c ∷ s) = elim (c == b'>') [
  | true ↦ (if n == b'b' then 10 ∷ [] else []) ++ visible in_text s
  | false ↦ visible (in_name n) s
]
visible (in_entity name) (c ∷ s) = elim (c == b';') [
  | true ↦ entity_text name ++ visible in_text s
  | false ↦ visible (in_entity (c ∷ name)) s
]

-- What holds of the five references and of a rune for itself holds of every escaped rune.
escape_rune-elim :
    (P : ℕ → Text → Type 0) (c : ℕ)
    → P b'&' (codes "&amp;")
    → P b'<' (codes "&lt;")
    → P b'>' (codes "&gt;")
    → P b'"' (codes "&#34;")
    → P b'\'' (codes "&#39;")
    → ((c == b'&' ≡ false) → (c == b'<' ≡ false) → (c == b'>' ≡ false) → P c (c ∷ []))
    → P c (escape_rune c)
unfolding escape_rune
escape_rune-elim P c amp lt gt quot apos other =
    by_cases (P c) (c == b'&') _ _ (λ h. is b'&' h amp)
      (λ a.
        by_cases (P c) (c == b'<') _ _ (λ h. is b'<' h lt)
          (λ l.
            by_cases (P c) (c == b'>') _ _ (λ h. is b'>' h gt)
              (λ g.
                by_cases (P c) (c == b'"') _ _ (λ h. is b'"' h quot)
                  (λ q.
                    by_cases (P c) (c == b'\'') _ _ (λ h. is b'\'' h apos) (λ o. other a l g)))))
  where
    is : (d : ℕ) {t : Text} → (c == d) ≡ true → P d t → P c t
    is d {t} h x = subst (λ (n : ℕ). P n t) (ground arith) x

visible-escape_rune :
    (c : ℕ) (rest : Text) → visible in_text (escape_rune c ++ rest) ≡ c ∷ visible in_text rest
unfolding visible text_eq
visible-escape_rune c rest =
    escape_rune-elim (λ d t. visible in_text (t ++ rest) ≡ d ∷ visible in_text rest) c refl refl
      refl refl refl (λ a l g. ground arith)

visible-escape : (t rest : Text) → visible in_text (escape t ++ rest) ≡ t ++ visible in_text rest
unfolding escape
visible-escape [] rest = refl
visible-escape (c ∷ t) rest =
    ap (visible in_text) (append_assoc (escape_rune c) (escape t) rest)
    ∙ visible-escape_rune c (escape t ++ rest)
    ∙ ap (λ s. c ∷ s) (visible-escape t rest)

br_html-append : (s t : Text) → br_html (s ++ t) ≡ br_html s ++ br_html t
unfolding br_html
br_html-append [] t = refl
br_html-append (c ∷ s) t =
    ap (λ r. (if c == 10 then codes "<br>" else c ∷ []) ++ r) (br_html-append s t)
    ∙ sym (append_assoc (if c == 10 then codes "<br>" else c ∷ []) (br_html s) (br_html t))

visible-br_rune :
    (c : ℕ) (rest : Text)
    → visible in_text (br_html (escape_rune c) ++ rest) ≡ c ∷ visible in_text rest
unfolding visible text_eq br_html
visible-br_rune c rest =
    escape_rune-elim (λ d t. visible in_text (br_html t ++ rest) ≡ d ∷ visible in_text rest) c refl
      refl refl refl refl
      (λ a l g.
        by_cases (λ t. visible in_text ((t ++ []) ++ rest) ≡ c ∷ visible in_text rest) (c == 10) _ _
          (λ h. let line : 10 ≡ c = ground arith in ap (λ n. n ∷ visible in_text rest) line)
          (λ h. ground arith))

visible-br_html :
    (t rest : Text) → visible in_text (br_html (escape t) ++ rest) ≡ t ++ visible in_text rest
unfolding escape br_html
visible-br_html [] rest = refl
visible-br_html (c ∷ t) rest =
    ap (λ s. visible in_text (s ++ rest)) (br_html-append (escape_rune c) (escape t))
    ∙ ap (visible in_text) (append_assoc (br_html (escape_rune c)) (br_html (escape t)) rest)
    ∙ visible-br_rune c (br_html (escape t) ++ rest)
    ∙ ap (λ s. c ∷ s) (visible-br_html t rest)

-- An escaped text does not end a tag.
visible-tag_rune :
    (n c : ℕ) (rest : Text) → visible (in_name n) (escape_rune c ++ rest) ≡ visible (in_name n) rest
unfolding visible
visible-tag_rune n c rest =
    escape_rune-elim (λ d t. visible (in_name n) (t ++ rest) ≡ visible (in_name n) rest) c refl refl
      refl refl refl (λ a l g. ground arith)

visible-tag :
    (n : ℕ) (t rest : Text) → visible (in_name n) (escape t ++ rest) ≡ visible (in_name n) rest
unfolding escape
visible-tag n [] rest = refl
visible-tag n (c ∷ t) rest =
    ap (visible (in_name n)) (append_assoc (escape_rune c) (escape t) rest)
    ∙ visible-tag_rune n c (escape t ++ rest)
    ∙ visible-tag n t rest

append_five :
    (a b c d e rest : Text) → a ++ b ++ c ++ d ++ e ++ rest ≡ a ++ (b ++ (c ++ (d ++ (e ++ rest))))
append_five a b c d e rest = simp append_assoc

-- The text that a piece shows.
abbrev text_of : Piece → Text
text_of (plain t) = t
text_of (link href t) = t

visible-write_piece :
    (p : Piece) (rest : Text)
    → visible in_text (write_piece p ++ rest) ≡ text_of p ++ visible in_text rest
unfolding write_piece visible
visible-write_piece (plain t) rest = visible-br_html t rest
visible-write_piece (link href t) rest =
    let shape =
      append_five (codes "<a href=\"") (escape href) (codes "\">") (escape t) (codes "</a>") rest in
    let closed : visible in_text (codes "</a>" ++ rest) ≡ visible in_text rest = refl in
    ap (visible in_text) shape
    ∙ visible-tag b'a' href (codes "\">" ++ (escape t ++ (codes "</a>" ++ rest)))
    ∙ visible-escape t (codes "</a>" ++ rest)
    ∙ ap (λ s. t ++ s) closed

visible-write_pieces : (ps : List Piece) → visible in_text (write_pieces ps) ≡ shown ps
unfolding write_pieces shown visible
visible-write_pieces [] = refl
visible-write_pieces (plain t ∷ ps) =
    visible-write_piece (plain t) (write_pieces ps) ∙ ap (λ s. t ++ s) (visible-write_pieces ps)
visible-write_pieces (link href t ∷ ps) =
    visible-write_piece (link href t) (write_pieces ps) ∙ ap (λ s. t ++ s) (visible-write_pieces ps)

-- The links of a caption lie inside the text, in order and apart; and a reader of the written HTML, to
-- whom a tag that starts with `b` is a line break, who leaves out the other tags and decodes the five
-- references, sees the text, every character once and in its place, whatever the patterns match.
pub visible-caption_html :
    (p : Patterns) (text : Text)
    → Ordered text 0 (detect_links p text) × (visible in_text (caption_html p text) ≡ text)
unfolding caption_html
visible-caption_html p text =
    let (ordered, same) = shown-detect_links p text in
    (ordered, visible-write_pieces (pieces text 0 (detect_links p text)) ∙ same)

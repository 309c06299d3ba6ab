-- ===== src/Tests/Captions.antt =====
-- Captions on concrete inputs.
use oginstagram.Base.{ℕ, ◌+◌, ◌==◌, ◌≡◌, refl, Bool, false, List, [], ◌∷◌, if◌then◌else◌, ltb}
use oginstagram.Base.Text.{Text, codes}
use oginstagram.Linkify.{Patterns, detect_links, caption_html, trim_url_end}
use oginstagram.Linkify.Shown.{Ordered}
use oginstagram.Linkify.Visible.{in_text, visible, visible-caption_html}

abbrev caption : Text
caption = codes "hi @bob <3"

-- The matches in the caption above; a letter is a word rune.
abbrev patterns : Patterns
patterns = record {
  schemes = λ text. [];
  mentions = λ text. (3, 7) ∷ [];
  hashtags = λ text. [];
  is_word = λ r. ltb b'_' r;
  query_escape = λ text. text;
}

caption_html_run :
    caption_html patterns caption
    ≡ codes "hi <a href=\"https://www.instagram.com/bob\">@bob</a> &lt;3"
unfolding caption_html oginstagram.Routes.valid_username oginstagram.Base.Strings.has_part
    oginstagram.Base.Text.has_prefix
caption_html_run = refl

trim_url_end_run : trim_url_end (codes "http://a.b/(x)). c") 0 16 ≡ 14
unfolding trim_url_end
trim_url_end_run = refl

visible-caption_html_example :
    Ordered caption 0 (detect_links patterns caption)
    × (visible in_text (caption_html patterns caption) ≡ caption)
visible-caption_html_example = visible-caption_html patterns caption

-- ===== src/Helpers.antt =====
-- server/helpers.go: the texts of a card and the attachments that it shows. A text is a list of code
-- points where characters are counted.
pub mod Selection
use oginstagram.Base.{
  ℕ, zero, suc, ◌+◌, ◌-◌, ◌*◌, ◌/◌, ◌%◌, Bool, true, false, not, ◌&&◌, ◌||◌, List, [], ◌∷◌, ◌++◌,
  Option, none, some, reverse, map, take, length, get_elem?, ltb, leb, ◌==◌, if◌then◌else◌,
}
use oginstagram.Base.Int.{ℤ, pos, negsuc, leb_int, to_nat}
use oginstagram.Base.Strings.{is_space}
use oginstagram.Base.Text.{Text, codes, text_eq, has_prefix}
use oginstagram.Decimal.{itoa}
use oginstagram.Models.{Attachment, Post}
use oginstagram.Models.Valid.{has_suffix}
use oginstagram.Routes.{split, join, trim_left, trim_right}
use oginstagram.Server.Handlers.{media_index_for}

abbrev pub digits64 : Text
digits64 = codes "ABCDEFGHIJKLMNOPQRSTUVWXYZabcdefghijklmnopqrstuvwxyz0123456789-_"

abbrev pub digit64 : ℕ → Text
digit64 n = elim (get_elem? digits64 n) [ none ↦ [] | some c ↦ c ∷ [] ]

-- The loop of `pkShortcode`; the array has room for eleven digits, all that 64 bits need.
unfoldable pub pk_digits : ℕ → ℕ → Text
pk_digits zero pk = []
pk_digits (suc room) pk =
    let rest = pk_digits room (pk / 64) in
    if pk / 64 == 0 then digit64 (pk % 64) else rest ++ digit64 (pk % 64)

unfoldable pub pk_shortcode : ℕ → Text
unfolding pk_digits
pk_shortcode pk = pk_digits 11 pk

-- The commas of `fmtCount` in the reversed digits.
unfoldable pub group : Text → Text
group (a ∷ b ∷ c ∷ d ∷ s) = a ∷ b ∷ c ∷ b',' ∷ group (d ∷ s)
group s = s

unfoldable pub fmt_count : ℤ → Text
unfolding group to_nat
fmt_count value = reverse (group (reverse (itoa (to_nat value))))

-- `strings.TrimSuffix`
unfoldable pub trim_suffix : Text → Text → Text
unfolding has_suffix
trim_suffix s suffix = if has_suffix s suffix then take (length s - length suffix) s else s

unfoldable pub stats_line : Text → ℤ → ℤ → Text
unfolding fmt_count trim_suffix leb_int
stats_line prefix likes comments =
    let with_likes =
      if leb_int (pos 0) likes
      then prefix ++ (10084 ∷ 65039 ∷ codes " ") ++ fmt_count likes ++ codes "  "
      else prefix in
    let line =
      if leb_int (pos 0) comments
      then with_likes ++ codes "💬 " ++ fmt_count comments ++ codes "  "
      else with_likes in
    trim_suffix line (codes "  ")

-- `strings.TrimSpace`
unfoldable pub trim_space_start : Text → Text
trim_space_start [] = []
trim_space_start (c ∷ s) = elim (is_space c) [ true ↦ trim_space_start s | false ↦ c ∷ s ]

unfoldable pub trim_space_text : Text → Text
unfolding trim_space_start
trim_space_text s = reverse (trim_space_start (reverse (trim_space_start s)))

unfoldable pub nonempty_lines : List Text → List Text
nonempty_lines [] = []
nonempty_lines (l ∷ ls) = elim (trim_space_text l) [
  | [] ↦ nonempty_lines ls
  | c ∷ s ↦ (c ∷ s) ∷ nonempty_lines ls
]

-- `strings.TrimRight(s, " \t\n")`
unfoldable pub trim_blank_start : Text → Text
trim_blank_start [] = []
trim_blank_start (c ∷ s) = elim (c == 32 || c == 9 || c == 10) [
  | true ↦ trim_blank_start s
  | false ↦ c ∷ s
]

unfoldable pub truncate_flat : Text → ℕ → Text
unfolding nonempty_lines trim_blank_start join split
truncate_flat text limit =
    let flat = join 32 (nonempty_lines (split 10 text)) in
    if leb (length flat) limit
    then flat
    else reverse (trim_blank_start (reverse (take (limit - 3) flat))) ++ codes "..."

unfoldable pub normalize_caption : Text → Text
unfolding trim_space_text join split trim_left trim_right
normalize_caption text =
    trim_right 10 (trim_left 10 (join 10 (map trim_space_text (split 10 text))))

unfoldable pub post_description : Text → Text → Text
unfolding normalize_caption trim_space_text
post_description caption reaction =
    let nc = normalize_caption caption in
    let tr = trim_space_text reaction in
    if not (text_eq tr []) && not (text_eq nc [])
    then tr ++ 10 ∷ 10 ∷ nc
    else if not (text_eq tr [])
    then tr
    else nc

-- Sizes are not negative. `int(float64(n)*m + 0.5)` for the factors 1/2, 1 and 2, by the nearest whole number.
unfoldable pub video_display_size : Attachment → ℕ × ℕ
unfolding to_nat
video_display_size a =
    let width = to_nat a.width in
    let height = to_nat a.height in
    if text_eq a.kind (codes "video")
    then (if ltb width 400 && ltb height 400
        then (width * 2, height * 2)
        else if ltb 1920 width || ltb 1920 height
        then ((width + 1) / 2, (height + 1) / 2)
        else (width, height))
    else (width, height)

pub record AttachmentSelection : Type 0 where
  pub items : List (Attachment × ℕ)
  pub indicator : Text

abbrev pub activity_max_images : ℕ
activity_max_images = 4

abbrev pub gallery_emoji : Text
gallery_emoji = 128444 ∷ 65039 ∷ []

-- The images from the position `i` on, as many as there is room for.
unfoldable pub images_from : ℕ → ℕ → List Attachment → List (Attachment × ℕ)
images_from zero i all = []
images_from (suc room) i [] = []
images_from (suc room) i (a ∷ rest) = elim (text_eq a.kind (codes "image")) [
  | true ↦ (a, i) ∷ images_from room (suc i) rest
  | false ↦ images_from (suc room) (suc i) rest
]

-- One attachment, the one asked for, of how many.
unfoldable pub selection_of : ℕ → ℕ → Option Attachment → Option AttachmentSelection
selection_of total sel none = none
selection_of total sel (some a) = some (record {
  items = (a, sel) ∷ [];
  indicator =
      if ltb 1 total
      then gallery_emoji ++ codes " " ++ itoa (sel + 1) ++ codes " / " ++ itoa total
      else [];
})

unfoldable pub select_one : Post → ℕ → Option AttachmentSelection
unfolding selection_of
select_one post sel = selection_of (length post.attachments) sel (get_elem? post.attachments sel)

-- The attachments of a gallery without an index: its video in front, or its first images.
unfoldable pub select_gallery : List Attachment → AttachmentSelection
unfolding images_from
select_gallery [] = record { items = []; indicator = gallery_emoji ++ codes " 0" }
select_gallery (a ∷ rest) =
    if text_eq a.kind (codes "video")
    then record {
      items = (a, 0) ∷ [];
      indicator = gallery_emoji ++ codes " 1 / " ++ itoa (length (a ∷ rest));
    }
    else record {
      items = images_from activity_max_images 0 (a ∷ rest);
      indicator = gallery_emoji ++ codes " " ++ itoa (length (a ∷ rest));
    }

-- `none` is an index out of range, in a post without attachments.
unfoldable pub select_activity_attachments : Post → ℕ → Bool → Option AttachmentSelection
unfolding select_one select_gallery media_index_for
select_activity_attachments post media_index specified =
    if specified || leb (length post.attachments) 1
    then select_one post (media_index_for post media_index)
    else some (select_gallery post.attachments)

unfoldable pub with_indicator : Text → Text → Text
with_indicator indicator stats =
    if not (text_eq indicator []) && not (text_eq stats [])
    then indicator ++ codes "  " ++ stats
    else indicator ++ stats

-- `profileStatsLine`
unfoldable pub profile_stats_line : ℤ → ℤ → Text
unfolding fmt_count
profile_stats_line (negsuc zero) followers = codes "👤 " ++ fmt_count followers
profile_stats_line media followers =
    codes "📝 " ++ fmt_count media ++ codes " 👤 " ++ fmt_count followers

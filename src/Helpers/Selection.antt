-- ===== src/Helpers/Selection.antt =====
-- server/helpers.go, `selectActivityAttachments`: what a card shows of a post.
use oginstagram.Base.{
  ℕ, zero, suc, ◌-◌, ◌≡◌, ◌≤◌, ◌<◌, refl, subst, sym, Bool, true, false, ◌||◌, List, [], ◌∷◌,
  Option, some, length, get_elem?, leb, All, arith, by_cases, Bool-cases, min, take, ap, ◌∙◌, ◌⊎◌,
  inl, inr, if◌then◌else◌,
}
use oginstagram.Base.Text.{codes, text_eq}
use oginstagram.Helpers.{
  AttachmentSelection, images_from, select_one, selection_of, select_gallery,
  select_activity_attachments, activity_max_images,
}
use oginstagram.Models.{Attachment, Post}
use oginstagram.Server.Handlers.{media_index_for}

-- An item is the attachment at its index.
abbrev pub IsAt : List Attachment → Attachment × ℕ → Type 0
IsAt all x = get_elem? all x.1 ≡ some x.0

IsAtFrom : ℕ → List Attachment → Attachment × ℕ → Type 0
IsAtFrom i all x = (i ≤ x.1) × (get_elem? all (x.1 - i) ≡ some x.0)

IsAtFrom-suc :
    (i : ℕ) (a : Attachment) (all : List Attachment) (xs : List (Attachment × ℕ))
    → All (IsAtFrom (suc i) all) xs
    → All (IsAtFrom i (a ∷ all)) xs
unfolding IsAtFrom
IsAtFrom-suc i a all [] h = tt
IsAtFrom-suc i a all (x ∷ xs) (h, rest) =
    let next : x.1 - i ≡ suc (x.1 - suc i) = omega (arith, h.0) in
    ((omega (arith, h.0), rw next h.1), IsAtFrom-suc i a all xs rest)

images_from-IsAtFrom :
    (room i : ℕ) (all : List Attachment) → All (IsAtFrom i all) (images_from room i all)
unfolding images_from IsAtFrom
images_from-IsAtFrom zero i all = tt
images_from-IsAtFrom (suc room) i [] = tt
images_from-IsAtFrom (suc room) i (a ∷ rest) =
    let here : i - i ≡ 0 = omega arith in
    elim (text_eq a.kind (codes "image"))
      as (λ b. All (IsAtFrom i (a ∷ rest)) (elim b [
        | true ↦ (a, i) ∷ images_from room (suc i) rest
        | false ↦ images_from (suc room) (suc i) rest
      ])) [
        | true ↦ (
          (omega arith, rw here refl),
          IsAtFrom-suc i a rest _ (images_from-IsAtFrom room (suc i) rest),
        )
        | false ↦ IsAtFrom-suc i a rest _ (images_from-IsAtFrom (suc room) (suc i) rest)
      ]

length-images_from : (room i : ℕ) (all : List Attachment) → length (images_from room i all) ≤ room
unfolding images_from
length-images_from zero i all = omega arith
length-images_from (suc room) i [] = omega arith
length-images_from (suc room) i (a ∷ rest) =
    ground (arith, length-images_from room (suc i) rest, length-images_from (suc room) (suc i) rest)

All-zero :
    (all : List Attachment) (xs : List (Attachment × ℕ))
    → All (IsAtFrom 0 all) xs
    → All (IsAt all) xs
unfolding IsAtFrom
All-zero all [] h = tt
All-zero all (x ∷ xs) (h, rest) =
    let same : x.1 - 0 ≡ x.1 = omega arith in
    (subst (λ n. get_elem? all n ≡ some x.0) same h.1, All-zero all xs rest)

Fits : List Attachment → AttachmentSelection → Type 0
Fits all s = All (IsAt all) s.items × (length s.items ≤ activity_max_images)

-- Each attachment with its position.
unfoldable pub numbered : ℕ → List Attachment → List (Attachment × ℕ)
numbered i [] = []
numbered i (a ∷ rest) = (a, i) ∷ numbered (suc i) rest

unfoldable pub keep_images : List (Attachment × ℕ) → List (Attachment × ℕ)
keep_images [] = []
keep_images (x ∷ xs) =
    let rest = keep_images xs in if text_eq x.0.kind (codes "image") then x ∷ rest else rest

-- What a gallery shows unasked: its first attachment if that is a video, and else its first images.
unfoldable pub gallery_items : List Attachment → List (Attachment × ℕ)
gallery_items [] = []
gallery_items (a ∷ rest) =
    if text_eq a.kind (codes "video")
    then (a, 0) ∷ []
    else take activity_max_images (keep_images (numbered 0 (a ∷ rest)))

images_from_lem :
    (room i : ℕ) (all : List Attachment)
    → images_from room i all ≡ take room (keep_images (numbered i all))
unfolding images_from numbered keep_images
images_from_lem zero i all = refl
images_from_lem (suc room) i [] = refl
images_from_lem (suc room) i (a ∷ rest) =
    elim (text_eq a.kind (codes "image"))
      as (λ b.
        (elim b [
          | true ↦ (a, i) ∷ images_from room (suc i) rest
          | false ↦ images_from (suc room) (suc i) rest
        ])
        ≡ take (suc room) (
            if b
            then (a, i) ∷ keep_images (numbered (suc i) rest)
            else keep_images (numbered (suc i) rest))) [
              | true ↦ ap (λ xs. (a, i) ∷ xs) (images_from_lem room (suc i) rest)
              | false ↦ images_from_lem (suc room) (suc i) rest
            ]

-- The two kinds that a source delivers.
abbrev pub IsMedium : Attachment → Type 0
IsMedium a = (text_eq a.kind (codes "image") ≡ true) ⊎ (text_eq a.kind (codes "video") ≡ true)

images_from-some :
    (room : ℕ) (a : Attachment) (rest : List Attachment)
    → text_eq a.kind (codes "image") ≡ true
    → 0 < length (images_from (suc room) 0 (a ∷ rest))
unfolding images_from
images_from-some room a rest h =
    subst
      (λ b.
        0
        < length (elim b [
          | true ↦ (a, 0) ∷ images_from room 1 rest
          | false ↦ images_from (suc room) 1 rest
        ]))
      (sym h) (omega arith)

-- At least one item, in its place.
abbrev Shows : List Attachment → AttachmentSelection → Type 0
Shows all s = Fits all s × (0 < length s.items)

select_gallery-Shows :
    (all : List Attachment)
    → 0 < length all
    → All IsMedium all
    → Shows all (select_gallery all) × ((select_gallery all).items ≡ gallery_items all)
unfolding select_gallery gallery_items Fits
select_gallery-Shows [] h m = absurd (omega arith)
select_gallery-Shows (a ∷ rest) h m = elim (Bool-cases (text_eq a.kind (codes "video"))) [
  | inl video ↦ rw video ((((refl, tt), omega arith), omega arith), refl)
  | inr other ↦
      let image : text_eq a.kind (codes "image") ≡ true = ground (arith, m.0) in
      rw other (
        (
          (
            All-zero (a ∷ rest) _ (images_from-IsAtFrom activity_max_images 0 (a ∷ rest)),
            length-images_from activity_max_images 0 (a ∷ rest),
          ),
          images_from-some 3 a rest image,
        ),
        images_from_lem activity_max_images 0 (a ∷ rest),
      )
]

get_elem?-some :
    (all : List Attachment) (i : ℕ) → i < length all → (a : Attachment) × (get_elem? all i ≡ some a)
get_elem?-some [] i h = absurd (omega arith)
get_elem?-some (a ∷ all) zero h = (a, refl)
get_elem?-some (a ∷ all) (suc i) h = get_elem?-some all i (omega arith)

select_one-Shows :
    (post : Post) (sel : ℕ)
    → sel < length post.attachments
    → (s : AttachmentSelection) × (select_one post sel ≡ some s)
      × Shows post.attachments s
      × (a : Attachment) × (s.items ≡ (a, sel) ∷ [])
unfolding select_one selection_of Fits
select_one-Shows post sel h =
    let (a, e) = get_elem?-some post.attachments sel h in
    subst
      (λ o.
        (s : AttachmentSelection) × (selection_of (length post.attachments) sel o ≡ some s)
        × Shows post.attachments s
        × (a : Attachment) × (s.items ≡ (a, sel) ∷ []))
      (sym e) (_, refl, (((e, tt), omega arith), omega arith), a, refl)

-- Whether one attachment is shown, the one asked for.
abbrev pub is_asked : Post → Bool → Bool
is_asked post specified = specified || leb (length post.attachments) 1

-- A post of images and videos always has a selection, which shows between one and four attachments,
-- each with its own position in the post. Where an index is specified or the post has one attachment,
-- it is the attachment at that index, or the last one where the index lies behind it; else it is the
-- first attachment if that is a video, and otherwise the first images, at most four.
pub select_activity_attachments-shows :
    (post : Post) (media_index : ℕ) (specified : Bool)
    → 0 < length post.attachments
    → All IsMedium post.attachments
    → (s : AttachmentSelection) × (select_activity_attachments post media_index specified ≡ some s)
      × All (IsAt post.attachments) s.items
      × (length s.items ≤ activity_max_images)
      × (0 < length s.items)
      × (is_asked post specified ≡ true
          → (a : Attachment) × (s.items ≡ (a, min media_index (length post.attachments - 1)) ∷ []))
      × (is_asked post specified ≡ false → s.items ≡ gallery_items post.attachments)
unfolding select_activity_attachments Fits
select_activity_attachments-shows post media_index specified h m =
    let last = length post.attachments - 1 in
    let Chosen : Option AttachmentSelection → Type 0 = λ o.
      (s : AttachmentSelection) × (o ≡ some s)
      × Shows post.attachments s
      × (is_asked post specified ≡ true
          → (a : Attachment) × (s.items ≡ (a, min media_index last) ∷ []))
      × (is_asked post specified ≡ false → s.items ≡ gallery_items post.attachments) in
    let sel : media_index_for post media_index ≡ min media_index last =
      unfold media_index_for in omega arith in
    let (s, e, shows, asked, unasked) : Chosen
        (select_activity_attachments post media_index specified) =
      by_cases Chosen (is_asked post specified) (select_one post (media_index_for post media_index))
        (some (select_gallery post.attachments))
        (λ yes.
          let (s, e, shows, a, one) =
            select_one-Shows post (media_index_for post media_index)
              (unfold media_index_for in omega (arith, h)) in
          (
            s,
            e,
            shows,
            (λ y. (a, one ∙ ap (λ (i : ℕ). (a, i) ∷ []) sel)),
            (λ no. absurd (ground arith)),
          ))
        (λ no.
          let (shows, items) = select_gallery-Shows post.attachments h m in
          (
            select_gallery post.attachments,
            refl,
            shows,
            (λ yes. absurd (ground arith)),
            (λ n. items),
          )) in
    (s, e, shows.0.0, shows.0.1, shows.1, asked, unasked)

-- ===== src/Models/Valid/Normal.antt =====
-- server/cache.go, `normalizeCachedPost`; server/helpers.go, `normalizeCDNHost`: a valid post is still valid
-- with its media on the common host.
use oginstagram.Base.{
  ℕ, ◌≡◌, refl, sym, ap, subst, or-true, Bool, true, false, not, ◌&&◌, ◌||◌, List, [], ◌∷◌, map,
  Option, none, some, length, leb, all, if◌then◌else◌, arith, by_cases,
}
use oginstagram.Base.Text.{Text, codes, text_eq}
use oginstagram.Models.{Attachment, Post}
use oginstagram.Models.Valid.{
  Url, trusted_media_url, valid_cached_url, valid_optional_cached_url, valid_cached_attachment,
  valid_cached_post, normalize_cdn_host, normalize_cached_attachment, normalize_post,
}

abbrev pub cdn_host : Text
cdn_host = codes "scontent.cdninstagram.com"

-- What `URL.String` does behind `url.Parse`: without an opaque part, the text of a URL with its host
-- replaced by a name parses to a URL with that name, without a port, and with the other parts as before.
abbrev pub Rehosts : (Text → Option Url) → (Url → Text) → Type 0
Rehosts parse_url render =
    (raw : Text) (u : Url)
    → parse_url raw ≡ some u
    → u.opaque_part ≡ []
    → (v : Url) × (parse_url (render (record u { host = cdn_host })) ≡ some v)
      × (v.scheme ≡ u.scheme)
      × (v.has_user ≡ u.has_user)
      × (v.hostname ≡ cdn_host)
      × (v.port ≡ [])
      × (v.opaque_part ≡ [])

no_opaque : (s : Text) → text_eq s [] ≡ true → s ≡ []
unfolding text_eq
no_opaque [] h = refl
no_opaque (c ∷ s) h = absurd cc

trusted_parts :
    (u : Url)
    → trusted_media_url (some u) ≡ true
    → (text_eq u.scheme (codes "https") ≡ true)
      × (u.has_user ≡ false)
      × (text_eq u.opaque_part [] ≡ true)
unfolding trusted_media_url
trusted_parts u h = (ground arith, ground arith, ground arith)

trusted_rehosted :
    (v : Url)
    → text_eq v.scheme (codes "https") ≡ true
    → v.has_user ≡ false
    → v.hostname ≡ cdn_host
    → v.port ≡ []
    → v.opaque_part ≡ []
    → trusted_media_url (some v) ≡ true
unfolding trusted_media_url oginstagram.Base.Text.lower
trusted_rehosted v scheme user host port opaque = rw (scheme, user, host, port, opaque) refl

module _ (parse_url : Text → Option Url) (render : Url → Text)
    (rehosts : Rehosts parse_url render) where
  normalize_cdn_host-trusted :
      (raw : Text) (o : Option Url)
      → parse_url raw ≡ o
      → trusted_media_url o ≡ true
      → valid_cached_url parse_url (normalize_cdn_host parse_url render raw) ≡ true
  unfolding valid_cached_url normalize_cdn_host trusted_media_url
  normalize_cdn_host-trusted raw none e h = absurd cc
  normalize_cdn_host-trusted raw (some u) e h =
      let Valid : Text → Type 0 = λ t. trusted_media_url (parse_url t) ≡ true in
      let same : Valid raw = rw e h in
      let (https, user, opaque) = trusted_parts u h in
      let (v, parsed, scheme, user', host, port, opaque') =
        rehosts raw u e (no_opaque u.opaque_part opaque) in
      let moved : Valid (render (record u { host = cdn_host })) =
        rw parsed (trusted_rehosted v (rw scheme https) (rw user' user) host port opaque') in
      rw (e, normalize_cdn_host)
        (by_cases Valid (text_eq raw [] || text_eq u.host []) _ _ (λ empty. same)
          (λ full. by_cases Valid _ _ _ (λ ours. moved) (λ other. same)))

  normalize_cdn_host-valid :
      (raw : Text)
      → valid_cached_url parse_url raw ≡ true
      → valid_cached_url parse_url (normalize_cdn_host parse_url render raw) ≡ true
  unfolding valid_cached_url
  normalize_cdn_host-valid raw h = normalize_cdn_host-trusted raw (parse_url raw) refl h

  normalize_cdn_host-empty :
      (o : Option Url) → parse_url [] ≡ o → normalize_cdn_host parse_url render [] ≡ []
  unfolding normalize_cdn_host text_eq
  normalize_cdn_host-empty none e = rw (e, normalize_cdn_host) refl
  normalize_cdn_host-empty (some u) e = rw (e, normalize_cdn_host) refl

  normalize_cdn_host-optional :
      (raw : Text)
      → valid_optional_cached_url parse_url raw ≡ true
      → valid_optional_cached_url parse_url (normalize_cdn_host parse_url render raw) ≡ true
  unfolding valid_optional_cached_url text_eq
  normalize_cdn_host-optional [] h =
      let same = normalize_cdn_host-empty (parse_url []) refl in rw same refl
  normalize_cdn_host-optional (c ∷ s) h =
      let valid = normalize_cdn_host-valid (c ∷ s) h in simp (valid, or-true)

  normalize_attachment-valid :
      (a : Attachment)
      → valid_cached_attachment parse_url a ≡ true
      → valid_cached_attachment parse_url (normalize_cached_attachment parse_url render a) ≡ true
  unfolding valid_cached_attachment normalize_cached_attachment
  normalize_attachment-valid a h =
      ground (arith, normalize_cdn_host-valid a.url, normalize_cdn_host-optional a.thumbnail)

  normalize_all-valid :
      (xs : List Attachment)
      → all (valid_cached_attachment parse_url) xs ≡ true
      → all
          (valid_cached_attachment parse_url)
          (map (normalize_cached_attachment parse_url render) xs)
        ≡ true
  normalize_all-valid [] h = refl
  normalize_all-valid (a ∷ xs) h =
      ground (arith, normalize_attachment-valid a, normalize_all-valid xs)

  length-normalize :
      (xs : List Attachment)
      → length (map (normalize_cached_attachment parse_url render) xs) ≡ length xs
  length-normalize [] = refl
  length-normalize (a ∷ xs) = omega (arith, length-normalize xs)

  pub normalize_post-valid :
      (key : Text) (post : Post)
      → valid_cached_post parse_url key post ≡ true
      → valid_cached_post parse_url key (normalize_post parse_url render post) ≡ true
  unfolding valid_cached_post normalize_post
  normalize_post-valid key post h =
      let size = length-normalize post.attachments in
      rw size (
        ground (
          arith,
          normalize_cdn_host-optional post.profile_pic,
          normalize_all-valid post.attachments,
        ))

-- ===== src/Models.antt =====
-- server/types.go, server/profile.go: the posts, stories and profiles that the caches hold.
-- An instant is 0 where the source has the zero time.
pub mod Valid
pub mod Lifetime
use oginstagram.Base.{ℕ, Bool, List}
use oginstagram.Base.Int.{ℤ}
use oginstagram.Base.Text.{Text}

pub record Attachment : Type 0 where
  pub kind : Text
  pub url : Text
  pub thumbnail : Text
  pub width : ℤ
  pub height : ℤ

pub record Post : Type 0 where
  pub shortcode : Text
  pub username : Text
  pub full_name : Text
  pub profile_pic : Text
  pub is_verified : Bool
  pub caption : Text
  pub stats_line : Text
  pub attachments : List Attachment
  pub created_at : ℕ
  pub is_partial : Bool

pub record Story : Type 0 where
  pub id : Text
  pub username : Text
  pub full_name : Text
  pub profile_pic : Text
  pub is_verified : Bool
  pub caption : Text
  pub media : Attachment
  pub created_at : ℕ

pub record ProfileMedia : Type 0 where
  pub thumbnail : Text
  pub width : ℤ
  pub height : ℤ

pub record Profile : Type 0 where
  pub username : Text
  pub full_name : Text
  pub biography : Text
  pub profile_pic : Text
  pub follower_count : ℤ
  pub media_count : ℤ
  pub is_private : Bool
  pub is_verified : Bool
  pub recent_media : List ProfileMedia

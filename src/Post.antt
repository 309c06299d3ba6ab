-- ===== src/Post.antt =====
-- server/app.go: how a post is fetched.
pub mod Oembed
pub mod Hidden
pub mod Get

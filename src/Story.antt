-- ===== src/Story.antt =====
-- server/story.go: stories, and the watch on the query that serves them.
pub mod Door

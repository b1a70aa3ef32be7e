-- ===== src/SwPlayer.antt =====
-- src/tools/swplayer/main.cc: a music server on top of the HTTP server.
pub mod Music
pub mod Info
pub mod Replies
mod Tests

-- ===== src/Router.antt =====
-- The publish-subscribe engine, internal/router/router.go.
pub mod Segments
pub mod Matches
pub mod Trie
pub mod Engine
pub mod Shared
pub mod Publish
mod Tests

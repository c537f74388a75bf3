-- ===== src/Http.antt =====
-- The HTTP layer: include/http and src/http.
pub mod Headers
pub mod Lines
pub mod Request
pub mod Context
pub mod Response
pub mod Chunked
pub mod StaticFile
pub mod Router
pub mod Server
mod Tests

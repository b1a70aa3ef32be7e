-- ===== src/Http.antt =====
-- contrib/http: the HTTP part, on top of the buffers and connections of the library.
pub mod Utils
pub mod Query
pub mod Number
pub mod Request
pub mod Response
pub mod Server

-- ===== src/Http.antt =====
-- The HTTP layer of Http/Http.hpp: requests, responses, and the parser of a connection.
pub mod Headers
pub mod Request
pub mod Response
pub mod RequestLine
pub mod Statu
pub mod Content
pub mod Files
pub mod Writer
pub mod Server

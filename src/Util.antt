-- ===== src/Util.antt =====
-- Uitl of Http/Http.hpp: the string helpers of the HTTP server.
pub mod Url
pub mod Split
pub mod Path
pub mod Status
pub mod Mime

-- ===== src/Steam.antt =====
-- Steam's text files: crates/frametime-domain/src/steam.rs.
pub mod Lexer
pub mod Parser
pub mod Totality
pub mod Printing
pub mod RoundTrip

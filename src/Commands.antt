-- ===== src/Commands.antt =====
-- Text commands: src/cywl_oopz/commands/.
pub mod Parsing
pub mod Words
pub mod Tokens
pub mod Pieces

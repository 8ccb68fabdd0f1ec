-- ===== src/Postgres.antt =====
-- archive/postgres: the archive's database.
pub mod Model
pub mod Tables
pub mod Statements
pub mod Database
pub mod Consistency
pub mod Upsert
pub mod MaxBlock
pub mod Session
pub mod Refinement

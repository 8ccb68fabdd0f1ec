-- ===== src/Traits.antt =====
-- archive/traits: where the executor reads blocks and states.
pub mod LocalDb
pub mod RocksDb
pub mod Budget
pub mod CatchUp
pub mod Open

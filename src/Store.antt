-- ===== src/Store.antt =====
-- The stores of crates/lib/src/store/ that keep a document.
pub mod Codec
pub mod DocStore
pub mod Table
pub mod Registry
pub mod Open
pub mod Tests

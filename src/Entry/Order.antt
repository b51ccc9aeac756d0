-- ===== src/Entry/Order.antt =====
-- The order of ids: `Ord` for `ID` of crates/lib/src/entry/id.rs, which is that of the crate cid.
pub mod Texts
use Prim.Native.Nat.{Ordering}
use eidetica.Base.{String, true, false, ◌≡◌}
use eidetica.Base.Sort.{not_after}

-- A total order.
pub record IdOrder : Type 0 where
  pub compare_ids : String → String → Ordering
  pub total :
      (a b : String) → not_after (compare_ids a b) ≡ false → not_after (compare_ids b a) ≡ true
  pub trans :
      (a b c : String)
      → not_after (compare_ids a b) ≡ true
      → not_after (compare_ids b c) ≡ true
      → not_after (compare_ids a c) ≡ true
  pub antisym :
      (a b : String)
      → not_after (compare_ids a b) ≡ true
      → not_after (compare_ids b a) ≡ true
      → a ≡ b

-- ===== src/Crdt/Merge/Upsert.antt =====
-- How writes to one container combine, at one key and at different keys.
use Prim.Native.Nat.Ordering.{eq}
use eidetica.Base.{◌≡◌, ◌≢◌, refl, arith}
use eidetica.Crdt.Key.{
  Keyed, Key, compare_key, eq_left-Key, eq_right-Key, gt_of_lt-Key, lt_of_gt-Key, lt_trans_Key,
}
use eidetica.Crdt.Value.{Value, Entries, end, entry}
use eidetica.Crdt.Merge.{upsert, merge_value, merge_entries}

module _ {c : Keyed} where
  -- one entry of the other container
  unfoldable pub take_in : Key c → Value → Entries c → Entries c
  take_in k v m = upsert (λ w. merge_value w v) v k m

  pub merge-end : (m : Entries c) → merge_entries m end ≡ m
  unfolding merge_value
  merge-end m = refl

  pub merge-entry :
      (m : Entries c) (k : Key c) (v : Value) (n : Entries c)
      → merge_entries m (entry k v n) ≡ merge_entries (take_in k v m) n
  unfolding merge_value take_in
  merge-entry m k v n = refl

module _ {c : Keyed} (f g : Value → Value) (v w : Value) (k j : Key c) where
  pub upsert-upsert_same :
      (m : Entries c)
      → compare_key c k j ≡ eq
      → upsert f v k (upsert g w j m) ≡ upsert (λ x. f (g x)) (f w) j m
  unfolding upsert
  upsert-upsert_same end h = ground (arith, h)
  upsert-upsert_same (entry i x m) h = ground (arith, h, eq_left-Key c k j i, upsert-upsert_same m)

  pub upsert-upsert_ne :
      (m : Entries c)
      → compare_key c k j ≢ eq
      → upsert f v k (upsert g w j m) ≡ upsert g w j (upsert f v k m)
  unfolding upsert
  upsert-upsert_ne end h = ground (arith, gt_of_lt-Key c k j, lt_of_gt-Key c k j)
  upsert-upsert_ne (entry i x m) h = ground (
    arith,
    upsert-upsert_ne m,
    gt_of_lt-Key c k j,
    lt_of_gt-Key c k j,
    lt_of_gt-Key c j i,
    lt_of_gt-Key c k i,
    lt_trans_Key c k i j,
    lt_trans_Key c j i k,
    eq_right-Key c k i j,
    eq_left-Key c k i j,
    eq_right-Key c j i k,
    eq_left-Key c j i k,
  )

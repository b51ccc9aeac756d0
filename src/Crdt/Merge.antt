-- ===== src/Crdt/Merge.antt =====
-- `Value::merge`, `Doc::merge` and `List::merge` of crates/lib/src/crdt/doc/.
pub mod Upsert
pub mod Shape
mod Assoc
pub mod Laws
use Prim.Native.Nat.Ordering.{lt, eq, gt}
use eidetica.Base.{if◌then◌else◌}
use eidetica.Crdt.Key.{Keyed, Key, compare_key}
use eidetica.Crdt.Value.{Value, doc, list, deleted, Entries, end, entry, Doc, to_value}

-- `get_mut` and a change, or `insert` where the key is missing
unfoldable pub upsert : {c : Keyed} → (Value → Value) → Value → Key c → Entries c → Entries c
upsert f v k end = entry k v end
upsert {c} f v k (entry j w m) = elim (compare_key c k j) [
  | lt ↦ entry k v (entry j w m)
  | eq ↦ entry j (f w) m
  | gt ↦ entry j w (upsert f v k m)
]

unfoldable mutual
  unfolding upsert

  -- The value that is merged into `self` comes second.
  pub merge_value : Value → Value → Value
  merge_value deleted other = other
  merge_value self deleted = deleted
  merge_value (doc a m) (doc b n) = if b then doc b n else doc a (merge_entries m n)
  merge_value (list l) (list k) = list (merge_entries l k)
  merge_value self other = other

  -- the loop over the entries of the other container
  pub merge_entries : {c : Keyed} → Entries c → Entries c → Entries c
  merge_entries m end = m
  merge_entries m (entry k v rest) = merge_entries (upsert (λ w. merge_value w v) v k m) rest

-- `CRDT::merge` of `Doc`
unfoldable pub merge_doc : Doc → Doc → Doc
merge_doc self other =
    if other.atomic
    then other
    else record { atomic = self.atomic; children = merge_entries self.children other.children }

-- ===== src/Crdt/Items.antt =====
-- The operations of `List` in crates/lib/src/crdt/doc/list.rs that go by index: an index counts the
-- items that are no tombstones.
pub mod Laws
use eidetica.Base.{ℕ, zero, suc, Bool, Option, none, some, length, if◌then◌else◌}
use eidetica.Crdt.Key.{by_position}
use eidetica.Crdt.Position.{Position}
use eidetica.Crdt.Value.{Value, deleted, Entries, end, entry, is_deleted}
use eidetica.Crdt.Container.{lookup, insert}
use eidetica.Crdt.Doc.{live}

-- `List::len`
unfoldable pub list_len : Entries by_position → ℕ
unfolding live
list_len l = length (live l)

-- the loop that looks for the position of an index
unfoldable pub position_of : Entries by_position → ℕ → Option Position
position_of end i = none
position_of (entry k v m) zero =
    let rest = position_of m zero in if is_deleted v then rest else some k
position_of (entry k v m) (suc i) =
    let rest = position_of m (suc i) in
    let next = position_of m i in if is_deleted v then rest else next

abbrev pub put_at :
    Value → Entries by_position → Option Position → Option Value × Entries by_position
put_at v l none = (none, l)
put_at v l (some p) = (lookup p l, insert p v l)

-- `List::set` returns the old value beside the list it leaves, and so does `List::remove`.
unfoldable pub list_set : ℕ → Value → Entries by_position → Option Value × Entries by_position
unfolding position_of lookup insert
list_set i v l = put_at v l (position_of l i)

unfoldable pub list_remove : ℕ → Entries by_position → Option Value × Entries by_position
unfolding position_of lookup insert
list_remove i l = put_at deleted l (position_of l i)

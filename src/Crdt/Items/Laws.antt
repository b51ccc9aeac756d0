-- ===== src/Crdt/Items/Laws.antt =====
-- About `List::set` and `List::remove` of crates/lib/src/crdt/doc/list.rs.
use eidetica.Base.{ℕ, zero, suc, ◌≡◌, List, [], ◌∷◌, Option, if◌then◌else◌}
use eidetica.Crdt.Key.{by_position}
use eidetica.Crdt.Position.{Position}
use eidetica.Crdt.Value.{Value, Entries, is_deleted}
use eidetica.Crdt.Doc.{live, nth}
use eidetica.Crdt.Items.{position_of, put_at}

-- the list with its i-th item replaced, or left out
abbrev pub replace_nth : ℕ → Value → List Value → List Value
replace_nth i v [] = []
replace_nth zero v (x ∷ xs) = v ∷ xs
replace_nth (suc i) v (x ∷ xs) = x ∷ replace_nth i v xs

abbrev pub remove_nth : ℕ → List Value → List Value
remove_nth i [] = []
remove_nth zero (x ∷ xs) = xs
remove_nth (suc i) (x ∷ xs) = x ∷ remove_nth i xs

-- what a write at an index leaves: the value in place of the item, or without it for a tombstone
abbrev pub write_nth : ℕ → Value → List Value → List Value
write_nth i v xs = if is_deleted v then remove_nth i xs else replace_nth i v xs

-- the old value and the live items that a write at an index leaves
abbrev outcome : Option Value × Entries by_position → Option Value × List Value
outcome r = (r.0, live r.1)

-- the claim at one list, by which it is shown for a longer one
abbrev Written : ℕ → Value → Entries by_position → Type 0
Written i v l = outcome (put_at v l (position_of l i)) ≡ (nth i (live l), write_nth i v (live l))

-- ===== src/Backend/Storage/Read.antt =====
-- Reading the entries of a tree or of a store, whole or up to some tips: `get`, `get_tree`,
-- `get_store`, `get_tree_from_tips` and `store_at` of
-- crates/lib/src/backend/database/in_memory/storage.rs, and the orders of cache.rs.
pub mod Part
pub mod Laws
use Prim.Native.Nat.{Ordering, compare}
use eidetica.Base.{
  ℕ, ◌+◌, String, List, [], ◌∷◌, Bool, true, false, ◌&&◌, Option, none, some, if◌then◌else◌, length,
  any, keep, map, ◌≡◌,
}
use eidetica.Base.Outcome.{Outcome, ok, err, ok_or, ◌>>=◌, ◌>>◌}
use eidetica.Base.Sort.{sort_by, not_after}
use eidetica.Entry.{Entry, in_subtree, subtree_parents, subtree_height}
use eidetica.Entry.Order.{IdOrder}
use eidetica.Backend.Error.{ReadError, entry_not_found, entry_not_in_tree, Ran}
use eidetica.Backend.Storage.{InMemoryInner, is_in, get_entry, in_tree, in_store, parents_in}
use eidetica.Backend.Walk.{Look, drop, see, Walked, run}

-- `Ordering::then_with`
abbrev pub then_with : Ordering → Ordering → Ordering
then_with Ordering.lt o = Ordering.lt
then_with Ordering.eq o = o
then_with Ordering.gt o = Ordering.gt

-- `unwrap_or(0)`
abbrev pub unwrap_height {ℓ} : {E : Type ℓ} → Outcome E ℕ → ℕ
unwrap_height (ok h) = h
unwrap_height (err e) = 0

abbrev pub main_parents : Entry → List String
main_parents e = (e.tree).parents

abbrev pub store_parents : String → Entry → List String
store_parents name e = parents_in (subtree_parents name e)

abbrev pub sorted_by : (List Entry → List Entry) → Ran (Walked Entry) → Ran (List Entry)
sorted_by sort none = none
sorted_by sort (some (err e)) = some (err e)
sorted_by sort (some (ok w)) = some (ok (sort w.found))

abbrev pub after_check : Outcome ReadError (Unit {0}) → Ran (List Entry) → Ran (List Entry)
after_check (ok _) r = r
after_check (err e) r = some (err e)

abbrev pub tree_height : Entry → ℕ
tree_height e = (e.tree).height

abbrev pub store_height : String → Entry → ℕ
store_height name e = unwrap_height (subtree_height name e)

abbrev pub tip_belongs : (Entry → Bool) → Option Entry → Bool
tip_belongs belongs none = false
tip_belongs belongs (some e) = belongs e

module _ (id_of : Entry → String) where
  -- what an id of the queue comes to: an entry that belongs is found, and its parents are queued
  abbrev pub look_up : (Entry → Bool) → (Entry → List String) → Option Entry → Look ReadError Entry
  look_up belongs parents none = drop
  look_up belongs parents (some e) = if belongs e then see (parents e) (e ∷ []) else drop

  abbrev pub look_in :
      (Entry → Bool) → (Entry → List String) → List Entry → String → Look ReadError Entry
  look_in belongs parents es id = look_up belongs parents (get_entry id_of id es)

  -- the loop that both reads run
  unfoldable pub collect :
      (Entry → Bool) → (Entry → List String) → List Entry → List String → Ran (Walked Entry)
  unfolding run
  collect belongs parents es queue = run true (look_in belongs parents es) (map id_of es) queue []

  -- the loop over the tips, which must be entries of the tree
  unfoldable pub check_tips : String → List Entry → List String → Outcome ReadError (Unit {0})
  unfolding get_entry in_tree
  check_tips tree es [] = ok tt
  check_tips tree es (tip ∷ tips) = do
    e ← ok_or (entry_not_found tip) (get_entry id_of tip es)
    (if in_tree id_of tree e then ok tt else err (entry_not_in_tree tip tree))
    check_tips tree es tips

  -- the tips that are entries of the store; the others are passed over
  abbrev pub held_tips : (Entry → Bool) → List Entry → List String → List String
  held_tips belongs es tips = keep (λ tip. tip_belongs belongs (get_entry id_of tip es)) tips

module _ (id_of : Entry → String) (order : IdOrder) where
  abbrev pub compare_by : (Entry → ℕ) → Entry → Entry → Ordering
  compare_by height a b =
      then_with (compare (height a) (height b)) (order.compare_ids (id_of a) (id_of b))

  unfoldable pub sort_entries_by_height : List Entry → List Entry
  sort_entries_by_height es = sort_by (compare_by tree_height) es

  unfoldable pub sort_entries_by_subtree_height : String → List Entry → List Entry
  sort_entries_by_subtree_height name es = sort_by (compare_by (store_height name)) es

  unfoldable pub get_tree : String → InMemoryInner → List Entry
  unfolding sort_entries_by_height
  get_tree tree s = sort_entries_by_height (keep (in_tree id_of tree) s.entries)

  unfoldable pub get_store : String → String → InMemoryInner → List Entry
  unfolding sort_entries_by_subtree_height
  get_store tree name s =
      sort_entries_by_subtree_height name (keep (in_store id_of tree name) s.entries)

  -- `None` is a loop that did not end.
  unfoldable pub get_tree_from_tips : String → List String → InMemoryInner → Ran (List Entry)
  unfolding collect sort_entries_by_height check_tips
  get_tree_from_tips tree [] s = some (ok [])
  get_tree_from_tips tree (tip ∷ tips) s =
      let queue = tip ∷ tips in
      after_check (check_tips id_of tree s.entries queue) (
        sorted_by sort_entries_by_height
          (collect id_of (in_tree id_of tree) main_parents s.entries queue))

  unfoldable pub store_at : String → String → List String → InMemoryInner → Ran (List Entry)
  unfolding collect sort_entries_by_subtree_height
  store_at tree name [] s = some (ok [])
  store_at tree name (tip ∷ tips) s = sorted_by (sort_entries_by_subtree_height name) (
      collect id_of (in_store id_of tree name) (store_parents name) s.entries
        (held_tips id_of (in_store id_of tree name) s.entries (tip ∷ tips)))

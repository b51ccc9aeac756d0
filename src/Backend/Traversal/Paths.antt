-- ===== src/Backend/Traversal/Paths.antt =====
-- The entries between one entry and some others, `get_sorted_store_parents` and `get_path_from_to`,
-- and the path of first parents, `build_path_from_root`, of crates/lib/src/backend/database/in_memory/traversal.rs.
pub mod Between
pub mod Rooted
use Prim.Native.Nat.{Ordering, compare}
use eidetica.Base.{
  ℕ, zero, suc, length, ◌||◌, String, List, [], ◌∷◌, Bool, true, false, not, ◌&&◌, Option, none,
  some, if◌then◌else◌, str_eq, keep, map,
}
use eidetica.Base.Outcome.{Outcome, ok, err}
use eidetica.Base.Sort.{sort_by, dedup}
use eidetica.Entry.{Entry, is_root, in_subtree, subtree_parents, subtree_height}
use eidetica.Entry.Order.{IdOrder}
use eidetica.Backend.Storage.{InMemoryInner, get_entry, is_in, in_tree, parents_in}
use eidetica.Backend.Storage.Read.{main_parents, then_with, unwrap_height}
use eidetica.Backend.Error.{ReadError, entry_not_found, cycle_detected, Ran, ◌>>?◌}
use eidetica.Backend.Walk.{Look, halt, see, Walked, run}

abbrev pub step_to : String → Outcome ReadError (List String) → Look ReadError String
step_to id (ok parents) = see parents (id ∷ [])
step_to id (err e) = halt e

module _ (id_of : Entry → String) (order : IdOrder) where
  -- the height that `and_then` and `unwrap_or(0)` read
  unfoldable pub height_or_zero : String → Option Entry → ℕ
  unfolding subtree_height
  height_or_zero name none = 0
  height_or_zero name (some e) = unwrap_height (subtree_height name e)

  unfoldable pub compare_heights : String → List Entry → String → String → Ordering
  unfolding get_entry height_or_zero
  compare_heights name es a b =
      then_with
        (compare (height_or_zero name (get_entry id_of a es))
          (height_or_zero name (get_entry id_of b es)))
        (order.compare_ids a b)

  -- Sorting an empty list leaves it as it is, so the test for one needs no clause.
  abbrev pub parents_of_entry :
      String → String → String → List Entry → Option Entry → Outcome ReadError (List String)
  parents_of_entry tree name id es none = err (entry_not_found id)
  parents_of_entry tree name id es (some e) =
      if in_tree id_of tree e && in_subtree name e
      then ok (sort_by (compare_heights name es) (parents_in (subtree_parents name e)))
      else ok []

  unfoldable pub get_sorted_store_parents :
      String → String → String → List Entry → Outcome ReadError (List String)
  unfolding get_entry in_tree in_subtree subtree_parents compare_heights
  get_sorted_store_parents tree id name es =
      parents_of_entry tree name id es (get_entry id_of id es)

  -- What an id of the queue comes to: at the start of the way nothing is found or queued.
  unfoldable pub look_between :
      String → String → String → List Entry → String → Look ReadError String
  unfolding get_sorted_store_parents
  look_between tree name from es id =
      if str_eq id from then see [] [] else step_to id (get_sorted_store_parents tree id name es)

  abbrev pub in_path_order : String → List Entry → List String → List String
  in_path_order name es ids =
      sort_by (compare_heights name es) (dedup (sort_by order.compare_ids ids))

  -- `None` is a loop that did not end.
  unfoldable pub get_path_from_to :
      String → String → String → List String → InMemoryInner → Ran (List String)
  unfolding run look_between compare_heights
  get_path_from_to tree name from [] s = some (ok [])
  get_path_from_to tree name from (id ∷ ids) s =
      run true (look_between tree name from s.entries) (map id_of s.entries)
        (keep (λ to. not (str_eq to from)) (id ∷ ids)) []
      >>? λ w. some (ok (in_path_order name s.entries w.found))

-- The parents in the store, or the main parents if no store is named or the entry has none there.
abbrev pub parents_or_main {ℓ} : {E : Type ℓ} → List String → Outcome E (List String) → List String
parents_or_main main (ok ids) = ids
parents_or_main main (err e) = main

unfoldable pub path_parents : String → Entry → List String
unfolding subtree_parents
path_parents name e =
    if str_eq name ""
    then main_parents e
    else parents_or_main (main_parents e) (subtree_parents name e)

-- `None` for the last entry of the way
abbrev pub first_of : List String → Option String
first_of [] = none
first_of (id ∷ ids) = some id

unfoldable pub after_entry : String → String → String → Entry → Option String
unfolding is_root path_parents
after_entry tree name id e =
    if str_eq id tree || is_root e then none else first_of (path_parents name e)

unfoldable pub after_get :
    String → String → String → Option Entry → Outcome ReadError (Option String)
after_get tree name id none = err (entry_not_found id)
after_get tree name id (some e) = ok (after_entry tree name id e)

module _ (id_of : Entry → String) (tree name : String) (es : List Entry) where
  -- One turn: the id to go on with. The ids of the path are those that were visited.
  unfoldable pub path_step : String → List String → Outcome ReadError (Option String)
  unfolding get_entry after_get
  path_step id path =
      if is_in id path
      then err (cycle_detected id)
      else after_get tree name id (get_entry id_of id es)

  -- The path is kept with what was pushed last at its head, which `reverse` comes to at the end.
  unfoldable pub path_loop : ℕ → String → List String → Ran (List String)
  unfolding path_step
  path_loop zero id path = none
  path_loop (suc fuel) id path = elim (path_step id path) [
    | err e ↦ some (err e)
    | ok none ↦ some (ok (id ∷ path))
    | ok (some next) ↦ path_loop fuel next (id ∷ path)
  ]

  -- Each turn visits another stored entry, until the last one.
  unfoldable pub build_path_from_root : String → Ran (List String)
  unfolding path_loop
  build_path_from_root target = path_loop (suc (length es)) target []

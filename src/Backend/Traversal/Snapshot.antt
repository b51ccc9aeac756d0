-- ===== src/Backend/Traversal/Snapshot.antt =====
-- The tips of a tree and of a store, cached or computed: `snapshot`, `store_snapshot` and
-- `store_snapshot_at` of crates/lib/src/backend/database/in_memory/traversal.rs.
pub mod Tips
pub mod Stores
pub mod Scope
use eidetica.Base.{
  String, List, [], ◌∷◌, ◌++◌, Bool, true, false, not, ◌&&◌, ◌||◌, Option, none, some,
  if◌then◌else◌, str_eq, any, keep, map,
}
use eidetica.Base.Outcome.{Outcome, ok, err}
use eidetica.Entry.{Entry, is_root, in_subtree, subtree_parents, is_empty_list}
use eidetica.Backend.Assoc.{find, change}
use eidetica.Entry.Order.{IdOrder}
use eidetica.Backend.Error.{Ran, ◌>>?◌}
use eidetica.Backend.Storage.{
  TreeTipsCache, InMemoryInner, empty_cache, is_in, in_tree, in_store, is_tip, set_tree_tips,
  parents_in,
}
use eidetica.Backend.Storage.Read.{get_tree_from_tips, store_parents}

-- `Vec` equality
abbrev pub same_ids : List String → List String → Bool
same_ids [] [] = true
same_ids [] (y ∷ ys) = false
same_ids (x ∷ xs) [] = false
same_ids (x ∷ xs) (y ∷ ys) = str_eq x y && same_ids xs ys

unfoldable pub cached_store : String → Option TreeTipsCache → Option (List String)
unfolding find
cached_store name none = none
cached_store name (some c) = find name c.subtree_tips

unfoldable pub set_store_tips : String → List String → TreeTipsCache → TreeTipsCache
unfolding change
set_store_tips name ids c = record c { subtree_tips = change name [] (λ old. ids) c.subtree_tips }

unfoldable pub cache_tree_tips : String → List String → InMemoryInner → InMemoryInner
unfolding change
cache_tree_tips tree ids s = record s { tips = change tree empty_cache (set_tree_tips ids) s.tips }

unfoldable pub cache_store_tips : String → String → List String → InMemoryInner → InMemoryInner
unfolding change set_store_tips
cache_store_tips tree name ids s = record s {
  tips = change tree empty_cache (set_store_tips name ids) s.tips;
}

abbrev pub cached_or :
    InMemoryInner → Option TreeTipsCache → List String × InMemoryInner → List String × InMemoryInner
cached_or s none computed = computed
cached_or s (some c) computed = (c.tree_tips, s)

abbrev pub stored_or :
    InMemoryInner → Option (List String) → List String × InMemoryInner → List String × InMemoryInner
stored_or s none computed = computed
stored_or s (some ids) computed = (ids, s)

-- the parents in a store of some entries, of those that are among the entries themselves
abbrev pub parents_within : String → List String → List Entry → List String
parents_within name ids [] = []
parents_within name ids (e ∷ es) =
    keep (λ id. is_in id ids) (store_parents name e) ++ parents_within name ids es

abbrev pub tips_within : String → List String → List Entry → List String
tips_within name ids es =
    let all_parents = parents_within name ids es in keep (λ id. not (is_in id all_parents)) ids

module _ (id_of : Entry → String) where
  -- the tips of a tree, when none are cached
  abbrev pub computed_tips : String → List Entry → List String
  computed_tips tree es = map id_of (
      keep (λ e. is_tip id_of es tree (id_of e) && (not (is_root e) || str_eq (id_of e) tree))
        (keep (in_tree id_of tree) es))

  unfoldable pub snapshot : String → InMemoryInner → List String × InMemoryInner
  unfolding find cache_tree_tips
  snapshot tree s =
      let tips = computed_tips tree s.entries in
      cached_or s (find tree s.tips) (tips, cache_tree_tips tree tips s)

  -- `is_subtree_tip` asks every entry of the store.
  unfoldable pub is_subtree_tip : List Entry → String → String → String → Bool
  unfolding in_store
  is_subtree_tip es tree name id =
      not (any (λ e. in_store id_of tree name e && is_in id (store_parents name e)) es)

  unfoldable pub compute_store_tips_from_all_entries : String → String → List Entry → List String
  unfolding in_store is_subtree_tip
  compute_store_tips_from_all_entries tree name es =
      map id_of
        (keep (λ e. is_subtree_tip es tree name (id_of e)) (keep (in_store id_of tree name) es))

  unfoldable pub store_snapshot : String → String → InMemoryInner → List String × InMemoryInner
  unfolding find cached_store compute_store_tips_from_all_entries cache_store_tips
  store_snapshot tree name s =
      let tips = compute_store_tips_from_all_entries tree name s.entries in
      stored_or s (cached_store name (find tree s.tips)) (tips, cache_store_tips tree name tips s)

  -- the entries of a scope that take part in a store, and their tips
  abbrev pub scope_tips : String → List Entry → List String
  scope_tips name es =
      let held = keep (in_subtree name) es in tips_within name (map id_of held) held

  module _ (order : IdOrder) where
    -- With the tips of the whole tree this is `store_snapshot`; else the scope is what the given
    -- entries reach.
    unfoldable pub store_snapshot_at :
        String → String → List String → InMemoryInner → Ran (List String) × InMemoryInner
    unfolding snapshot store_snapshot get_tree_from_tips
    store_snapshot_at tree name [] s = (some (ok []), s)
    store_snapshot_at tree name (id ∷ ids) s =
        let (current, t) = snapshot tree s in
        let (whole, u) = store_snapshot tree name t in
        let scope = get_tree_from_tips id_of order tree (id ∷ ids) t in
        if same_ids (id ∷ ids) current
        then (some (ok whole), u)
        else (scope >>? λ es. some (ok (scope_tips name es)), t)

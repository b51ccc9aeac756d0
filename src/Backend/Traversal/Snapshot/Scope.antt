-- ===== src/Backend/Traversal/Snapshot/Scope.antt =====
-- About `store_snapshot_at` of crates/lib/src/backend/database/in_memory/traversal.rs, where the scope
-- is not the whole tree.
use eidetica.Base.{
  String, List, [], ◌∷◌, Bool, false, not, ◌&&◌, some, str_eq, eq_iff, any, keep, map, ◌≡◌, refl,
  sym, subst, Option, none, ap, ◌∙◌, arith,
}
use eidetica.Base.Outcome.{ok}
use eidetica.Entry.{Entry, in_subtree}
use eidetica.Entry.Order.{IdOrder}
use eidetica.Backend.Assoc.{find}
use eidetica.Backend.Storage.{InMemoryInner, TreeTipsCache, is_in, in_tree}
use eidetica.Backend.Storage.Read.{check_tips, store_parents, main_parents, tree_height}
use eidetica.Backend.Storage.Read.Part.{Part}
use eidetica.Backend.Storage.Read.Laws.{IsRead, get_tree_from_tips-IsRead}
use eidetica.Backend.Traversal.Snapshot.{
  same_ids, parents_within, tips_within, snapshot, scope_tips, store_snapshot_at, cached_or,
  cache_tree_tips,
}
use eidetica.Backend.Traversal.Snapshot.Tips.{any-keep}
use eidetica.Backend.Walk.Reach.{is_in-append}

is_in-keep :
    (v : String) (p : String → Bool) (ids : List String)
    → is_in v (keep p ids) ≡ (is_in v ids && p v)
is_in-keep v p [] = refl
is_in-keep v p (id ∷ ids) = ground (arith, is_in-keep v p ids, ap p, eq_iff id v)

is_in-parents_within :
    (name v : String) (ids : List String) (es : List Entry)
    → is_in v (parents_within name ids es)
      ≡ (is_in v ids && any (λ e. is_in v (store_parents name e)) es)
is_in-parents_within name v ids [] = ground arith
is_in-parents_within name v ids (e ∷ es) =
    is_in-append v (keep (λ id. is_in id ids) (store_parents name e)) (parents_within name ids es)
    ∙ ground (
      arith,
      is_in-parents_within name v ids es,
      is_in-keep v (λ id. is_in id ids) (store_parents name e),
    )

is_in-tips_within :
    (name v : String) (ids : List String) (es : List Entry)
    → is_in v (tips_within name ids es)
      ≡ (is_in v ids && not (any (λ e. is_in v (store_parents name e)) es))
is_in-tips_within name v ids es =
    is_in-keep v (λ id. not (is_in id (parents_within name ids es))) ids
    ∙ ground (arith, is_in-parents_within name v ids es)

module _ (id_of : Entry → String) where
  is_in-map :
      (v : String) (es : List Entry) → is_in v (map id_of es) ≡ any (λ e. str_eq (id_of e) v) es
  is_in-map v [] = refl
  is_in-map v (e ∷ es) = ground (arith, is_in-map v es)

  -- the entries of a scope that take part in a store and that none of them names as a parent there
  abbrev pub is_scope_tip : String → List Entry → String → Bool
  is_scope_tip name es v =
      any (λ e. in_subtree name e && str_eq (id_of e) v) es
      && not (any (λ e. in_subtree name e && is_in v (store_parents name e)) es)

  is_in-scope_tips :
      (name v : String) (es : List Entry)
      → is_in v (scope_tips id_of name es) ≡ is_scope_tip name es v
  is_in-scope_tips name v es =
      let held = keep (in_subtree name) es in
      is_in-tips_within name v (map id_of held) held
      ∙ ground (
        arith,
        is_in-map v held,
        any-keep (λ e. str_eq (id_of e) v) (in_subtree name) es,
        any-keep (λ e. is_in v (store_parents name e)) (in_subtree name) es,
      )

  module _ (order : IdOrder) where
    entries-cached :
        (s t : InMemoryInner) (ids : List String) (o : Option TreeTipsCache)
        → t.entries ≡ s.entries
        → (cached_or s o (ids, t)).1.entries ≡ s.entries
    entries-cached s t ids none h = h
    entries-cached s t ids (some c) h = refl

    entries-snapshot :
        (tree : String) (s : InMemoryInner) → (snapshot id_of tree s).1.entries ≡ s.entries
    unfolding snapshot cache_tree_tips
    entries-snapshot tree s = entries-cached s _ _ (find tree s.tips) refl

    -- If the given ids are stored entries of the tree and are not just what `snapshot` answers
    -- with, `store_snapshot_at` ends and answers with those entries of the store that the given
    -- ones reach in the tree and that no entry of the store which they reach names as a parent in
    -- it.
    pub store_snapshot_at-scope :
        (tree name id : String) (ids : List String) (s : InMemoryInner)
        → check_tips id_of tree s.entries (id ∷ ids) ≡ ok tt
        → same_ids (id ∷ ids) (snapshot id_of tree s).0 ≡ false
        → (es : List Entry) × (tips : List String) × ((store_snapshot_at id_of order tree name
              (id ∷ ids)
              s).0
            ≡ some (ok tips))
          × IsRead id_of order tree_height
              (Part id_of (in_tree id_of tree) main_parents s.entries (id ∷ ids))
              es
          × ((v : String) → is_in v tips ≡ is_scope_tip name es v)
    unfolding store_snapshot_at
    store_snapshot_at-scope tree name id ids s h other =
        let t = (snapshot id_of tree s).1 in
        let e = entries-snapshot tree s in
        let (es, read, is_read) =
          get_tree_from_tips-IsRead id_of order tree (id ∷ ids) t
            (subst (λ (xs : List Entry). check_tips id_of tree xs (id ∷ ids) ≡ ok tt) (sym e) h) in
        (
          es,
          scope_tips id_of name es,
          rw (other, read) refl,
          subst
              (λ (xs : List Entry).
                IsRead id_of order tree_height
                  (Part id_of (in_tree id_of tree) main_parents xs (id ∷ ids)) es)
              e is_read,
          λ v. is_in-scope_tips name v es,
        )

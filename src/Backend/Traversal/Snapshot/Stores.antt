-- ===== src/Backend/Traversal/Snapshot/Stores.antt =====
-- About `store_snapshot` of crates/lib/src/backend/database/in_memory/traversal.rs, and the cached tips
-- of stores through `put` of storage.rs.
use eidetica.Base.{
  String, List, [], ◌∷◌, Bool, true, false, not, ◌&&◌, Option, none, some, if◌then◌else◌, str_eq,
  eq_iff, eq_refl, map, All, ◌≡◌, refl, sym, subst, ap, ◌∙◌, Bool-cases, inl, inr, arith,
}
use eidetica.Entry.{Entry, subtrees_of}
use eidetica.Backend.Assoc.{find, change, or_default, find-change}
use eidetica.Backend.Storage.{
  TreeTipsCache, InMemoryInner, empty_cache, is_in, in_store, contains, without_child,
  subtree_tips_of, set_tree_tips, set_subtree_tips, tree_tips_of, update_tips_for_tree,
  update_own_tree, tree_of, put_new, put,
}
use eidetica.Backend.Storage.Read.{store_parents}
use eidetica.Backend.Storage.Tips.{foreign, tree_of-in_tree, put_all}
use eidetica.Backend.Storage.Status.{find-update_subtrees}
use eidetica.Backend.Traversal.Snapshot.{
  cache_store_tips, set_store_tips, snapshot, cached_store, stored_or, is_subtree_tip,
  compute_store_tips_from_all_entries, store_snapshot,
}
use eidetica.Backend.Traversal.Snapshot.Tips.{any-keep, keep-keep}

if_true {ℓ} : {A : Type ℓ} (b : Bool) (x y : A) → b ≡ true → (if b then x else y) ≡ x
if_true b x y h = rw h refl

if_false {ℓ} : {A : Type ℓ} (b : Bool) (x y : A) → b ≡ false → (if b then x else y) ≡ y
if_false b x y h = rw h refl

-- what is cached is right; nothing may be cached
abbrev pub RightFor : List String → Option (List String) → Type 0
RightFor ids none = Unit
RightFor ids (some cached) = cached ≡ ids

module _ (id_of : Entry → String) where
  -- the cached tips of a store in a tree are the tips of its stored entries, or there are none cached
  abbrev pub StoreRight : String → String → InMemoryInner → Type 0
  StoreRight t name s =
      RightFor (subtree_tips_of id_of t name s.entries) (cached_store name (find t s.tips))

  store-update :
      (es : List Entry) (u t name : String) (tips : List (String × TreeTipsCache))
      → cached_store name (find t (update_tips_for_tree id_of es u tips))
        ≡ cached_store name (find t tips)
  unfolding cached_store update_tips_for_tree find
  store-update es u t name tips =
      ground (arith, find-change u t empty_cache (set_tree_tips (tree_tips_of id_of u es)) tips)

  store-own :
      (es : List Entry) (e : Entry) (t name : String) (tips : List (String × TreeTipsCache))
      → cached_store name (find t (update_own_tree id_of es e tips))
        ≡ cached_store name (find t tips)
  store-own es e t name tips = ground (arith, store-update es (id_of e) t name tips)

  store-subtrees :
      (es : List Entry) (u t name : String) (names : List String)
      (tips : List (String × TreeTipsCache))
      → cached_store name (find t (change u empty_cache (set_subtree_tips id_of es u names) tips))
        ≡ (if str_eq u t && is_in name names
            then some (subtree_tips_of id_of u name es)
            else cached_store name (find t tips))
  unfolding cached_store find
  store-subtrees es u t name names tips =
      let old = or_default empty_cache (find t tips) in
      ground (
        arith,
        find-change u t empty_cache (set_subtree_tips id_of es u names) tips,
        find-update_subtrees id_of es u name names old.subtree_tips,
      )

  put_new-store :
      (e : Entry) (s : InMemoryInner) (t name : String)
      → cached_store name (find t (put_new id_of e s).tips) ≡ (
          if str_eq (tree_of id_of e) t && is_in name (subtrees_of e)
          then some (subtree_tips_of id_of (tree_of id_of e) name (e ∷ s.entries))
          else cached_store name (find t s.tips))
  unfolding put_new
  put_new-store e s t name =
      let es = e ∷ s.entries in
      let u = tree_of id_of e in
      let tips = update_tips_for_tree id_of es u s.tips in
      store-subtrees es u t name (subtrees_of e) (update_own_tree id_of es e tips)
      ∙ ground (arith, store-own es e t name tips, store-update es u t name s.tips)

  subtree_tips_of-other :
      (e : Entry) (t name : String) (es : List Entry)
      → in_store id_of t name e ≡ false
      → subtree_tips_of id_of t name (e ∷ es) ≡ subtree_tips_of id_of t name es
  unfolding subtree_tips_of
  subtree_tips_of-other e t name es h = rw h refl

  same_store :
      (u t name : String) (es : List Entry)
      → str_eq u t ≡ true
      → subtree_tips_of id_of u name es ≡ subtree_tips_of id_of t name es
  same_store u t name es h = ap (λ v. subtree_tips_of id_of v name es) ((eq_iff u t).0 h)

  in_store-hit :
      (e : Entry) (t name : String)
      → foreign id_of e t ≡ false
      → in_store id_of t name e ≡ (str_eq (tree_of id_of e) t && is_in name (subtrees_of e))
  unfolding in_store
  in_store-hit e t name h = ground (arith, tree_of-in_tree id_of e t h)

  put_new-StoreRight :
      (e : Entry) (s : InMemoryInner) (t name : String)
      → foreign id_of e t ≡ false
      → StoreRight t name s
      → StoreRight t name (put_new id_of e s)
  unfolding put_new
  put_new-StoreRight e s t name h right =
      let es = e ∷ s.entries in
      let hit = in_store-hit e t name h in
      elim (Bool-cases (in_store id_of t name e)) [
        | inl y ↦
            let own : (str_eq (tree_of id_of e) t && is_in name (subtrees_of e)) ≡ true =
              sym hit ∙ y in
            let there = put_new-store e s t name ∙ if_true _ _ _ own in
            subst (RightFor (subtree_tips_of id_of t name es)) (sym there)
              (same_store (tree_of id_of e) t name es (ground arith))
        | inr n ↦
            let there = put_new-store e s t name ∙ if_false _ _ _ (sym hit ∙ n) in
            subst (RightFor (subtree_tips_of id_of t name es)) (sym there) (
              subst (λ (ids : List String). RightFor ids (cached_store name (find t s.tips)))
                (sym (subtree_tips_of-other e t name s.entries n)) right)
      ]

  -- `put` keeps the cached tips of a store right: as the entries of the store in that tree that no
  -- entry of the store there names as a parent in it. The new entry must not have this tree's id while
  -- it belongs to another tree.
  put-StoreRight :
      (e : Entry) (s : InMemoryInner) (t name : String)
      → foreign id_of e t ≡ false
      → StoreRight t name s
      → StoreRight t name (put id_of e s)
  unfolding put
  put-StoreRight e s t name h right = elim (Bool-cases (contains id_of (id_of e) s.entries)) [
    | inl y ↦ rw y right
    | inr n ↦ rw n (put_new-StoreRight e s t name h right)
  ]

  put_all-StoreRight :
      (t name : String) (es : List Entry)
      → All (λ e. foreign id_of e t ≡ false) es
      → StoreRight t name (put_all id_of es)
  put_all-StoreRight t name [] h = unfold find cached_store in tt
  put_all-StoreRight t name (e ∷ es) h =
      put-StoreRight e (put_all id_of es) t name h.0 (put_all-StoreRight t name es h.1)

  -- computing the tips when they are asked for, and when an entry is put, comes to the same
  computed-subtree_tips_of :
      (t name : String) (es : List Entry)
      → compute_store_tips_from_all_entries id_of t name es ≡ subtree_tips_of id_of t name es
  unfolding compute_store_tips_from_all_entries subtree_tips_of without_child is_subtree_tip
  computed-subtree_tips_of t name es = ap (map id_of) (
      keep-keep _ _ (in_store id_of t name)
        (λ e h. ap not (
          sym (
            any-keep (λ other. is_in (id_of e) (store_parents name other)) (in_store id_of t name)
              es)))
        es)

  stored-tips :
      (s t : InMemoryInner) (ids computed : List String) (o : Option (List String))
      → RightFor ids o
      → computed ≡ ids
      → (stored_or s o (computed, t)).0 ≡ ids
  stored-tips s t ids computed none h k = k
  stored-tips s t ids computed (some c) h k = h

  store_snapshot-tips :
      (t name : String) (s : InMemoryInner)
      → StoreRight t name s
      → (store_snapshot id_of t name s).0 ≡ subtree_tips_of id_of t name s.entries
  unfolding store_snapshot
  store_snapshot-tips t name s right =
      stored-tips s _ _ _ (cached_store name (find t s.tips)) right
        (computed-subtree_tips_of t name s.entries)

  -- In a backend that starts empty, after entries have arrived in any order and any number of
  -- times, `store_snapshot` answers with the tips of the store in a tree, its stored entries that
  -- none of them names as a parent there, whether they are cached or not, provided that none of the
  -- entries has this tree's id while it belongs to another tree.
  pub put_all-store_snapshot :
      (t name : String) (es : List Entry)
      → All (λ e. foreign id_of e t ≡ false) es
      → (store_snapshot id_of t name (put_all id_of es)).0
        ≡ subtree_tips_of id_of t name (put_all id_of es).entries
  put_all-store_snapshot t name es h =
      store_snapshot-tips t name (put_all id_of es) (put_all-StoreRight t name es h)

  -- If nothing is cached for a tree, then after `store_snapshot` was asked for one of its stores,
  -- `snapshot` answers that the tree has no tips, whatever entries are stored: the first call caches
  -- the tips of the store beside an empty set of tips of the tree.
  pub snapshot-store_snapshot :
      (t name : String) (s : InMemoryInner)
      → find t s.tips ≡ none
      → (snapshot id_of t (store_snapshot id_of t name s).1).0 ≡ []
  unfolding snapshot store_snapshot cached_store cache_store_tips set_store_tips
  snapshot-store_snapshot t name s h =
      let tips = compute_store_tips_from_all_entries id_of t name s.entries in
      let cached = find-change t t empty_cache (set_store_tips name tips) s.tips in
      rw (h, cached, eq_refl t, h) refl

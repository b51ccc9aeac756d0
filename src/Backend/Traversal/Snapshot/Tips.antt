-- ===== src/Backend/Traversal/Snapshot/Tips.antt =====
-- About `snapshot` of crates/lib/src/backend/database/in_memory/traversal.rs.
use eidetica.Base.{
  String, List, [], ◌∷◌, Bool, true, not, ◌&&◌, ◌||◌, Option, none, some, if◌then◌else◌, str_eq,
  eq_iff, any, keep, map, ◌≡◌, refl, ap, ◌∙◌, arith,
}
use eidetica.Entry.{Entry, is_root}
use eidetica.Backend.Assoc.{find, find-change}
use eidetica.Backend.Storage.{
  TreeTipsCache, InMemoryInner, empty_cache, is_in, in_tree, without_child, tree_tips_of,
  set_tree_tips, is_tip,
}
use eidetica.Backend.Storage.Tips.{cached_tips, Right}
use eidetica.Backend.Traversal.Snapshot.{cached_or, cache_tree_tips, computed_tips, snapshot}

-- testing what was kept
pub any-keep {ℓ} :
    {A : Type ℓ} (p q : A → Bool) (xs : List A) → any p (keep q xs) ≡ any (λ x. q x && p x) xs
any-keep p q [] = refl
any-keep p q (x ∷ xs) = ground (arith, any-keep p q xs)

-- tests that agree on what is kept keep the same of it
pub keep-keep {ℓ} :
    {A : Type ℓ} (p r q : A → Bool)
    → ((x : A) → q x ≡ true → p x ≡ r x)
    → (xs : List A) → keep p (keep q xs) ≡ keep r (keep q xs)
keep-keep p r q same [] = refl
keep-keep p r q same (x ∷ xs) = ground (arith, keep-keep p r q same xs, same x)

module _ (id_of : Entry → String) where
  -- a root in a tree is the root of it
  root-in_tree :
      (tree : String) (e : Entry)
      → in_tree id_of tree e ≡ true
      → (not (is_root e) || str_eq (id_of e) tree) ≡ true
  unfolding in_tree is_root
  root-in_tree tree e h = ground arith

  -- computing the tips when they are asked for, and when an entry is put, comes to the same
  computed_tips-tree_tips_of :
      (tree : String) (es : List Entry) → computed_tips id_of tree es ≡ tree_tips_of id_of tree es
  unfolding tree_tips_of without_child is_tip
  computed_tips-tree_tips_of tree es = ap (map id_of) (
      keep-keep _ _ (in_tree id_of tree)
        (λ e h. ground (
          arith,
          root-in_tree tree e h,
          any-keep (λ other. is_in (id_of e) (other.tree).parents) (in_tree id_of tree) es,
        ))
        es)

  cached-tips :
      (tree : String) (s t : InMemoryInner) (o : Option TreeTipsCache) (ids : List String)
      → ((c : TreeTipsCache) → o ≡ some c → c.tree_tips ≡ tree_tips_of id_of tree s.entries)
      → ids ≡ tree_tips_of id_of tree s.entries
      → (cached_or s o (ids, t)).0 ≡ tree_tips_of id_of tree s.entries
  cached-tips tree s t none ids h k = k
  cached-tips tree s t (some c) ids h k = h c refl

  -- If what is cached for a tree, when anything is, are the tips of its stored entries, `snapshot`
  -- answers with the tips of the stored entries, cached or not.
  pub snapshot-tips :
      (tree : String) (s : InMemoryInner)
      → ((c : TreeTipsCache)
          → find tree s.tips ≡ some c
          → c.tree_tips ≡ tree_tips_of id_of tree s.entries)
      → (snapshot id_of tree s).0 ≡ tree_tips_of id_of tree s.entries
  unfolding snapshot
  snapshot-tips tree s right =
      cached-tips tree s _ (find tree s.tips) _ right (computed_tips-tree_tips_of tree s.entries)

  cached_tips-cache :
      (tree u : String) (ids : List String) (s : InMemoryInner)
      → cached_tips u (cache_tree_tips tree ids s)
        ≡ (if str_eq tree u then ids else cached_tips u s)
  unfolding cache_tree_tips
  cached_tips-cache tree u ids s =
      ground (arith, find-change tree u empty_cache (set_tree_tips ids) s.tips)

  cached-Right :
      (u : String) (s t : InMemoryInner) (o : Option TreeTipsCache) (ids : List String)
      → Right id_of u s
      → Right id_of u t
      → Right id_of u (cached_or s o (ids, t)).1
  cached-Right u s t none ids h k = k
  cached-Right u s t (some c) ids h k = h

  same_tree :
      (t u : String) (es : List Entry)
      → str_eq t u ≡ true
      → tree_tips_of id_of t es ≡ tree_tips_of id_of u es
  same_tree t u es h = ap (λ v. tree_tips_of id_of v es) ((eq_iff t u).0 h)

  cache-Right :
      (tree u : String) (s : InMemoryInner)
      → Right id_of u s
      → Right id_of u (cache_tree_tips tree (computed_tips id_of tree s.entries) s)
  unfolding cache_tree_tips
  cache-Right tree u s h =
      cached_tips-cache tree u (computed_tips id_of tree s.entries) s
      ∙ ground (arith, computed_tips-tree_tips_of tree s.entries, same_tree tree u s.entries, h)

  -- asking for the tips of a tree keeps the cached tips of every tree right.
  snapshot-Right :
      (tree u : String) (s : InMemoryInner)
      → Right id_of u s
      → Right id_of u (snapshot id_of tree s).1
  unfolding snapshot
  snapshot-Right tree u s right =
      cached-Right u s _ (find tree s.tips) _ right (cache-Right tree u s right)

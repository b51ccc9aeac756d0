-- ===== src/Backend/Storage/Tips.antt =====
-- About the cached tips of a tree, `update_tips_for_tree` and `put` of
-- crates/lib/src/backend/database/in_memory/storage.rs.
use eidetica.Base.{
  String, List, [], ◌∷◌, Bool, true, false, ◌&&◌, Option, none, some, if◌then◌else◌, str_eq, eq_iff,
  ◌≡◌, refl, sym, ap, ◌∙◌, All, Bool-cases, inl, inr, arith,
}
use eidetica.Entry.{Entry, is_root, subtrees_of}
use eidetica.Auth.Key.{is_some}
use eidetica.Backend.Assoc.{find, change, find-change}
use eidetica.Backend.Storage.{
  TreeTipsCache, InMemoryInner, empty_inner, empty_cache, in_tree, contains, without_child,
  tree_tips_of, set_tree_tips, update_tips_for_tree, set_subtree_tips, tree_of, update_own_tree,
  put_new, put,
}

abbrev pub tips_in : Option TreeTipsCache → List String
tips_in none = []
tips_in (some c) = c.tree_tips

-- the tips cached for a tree
abbrev pub cached_tips : String → InMemoryInner → List String
cached_tips tree s = tips_in (find tree s.tips)

root-is_root : (e : Entry) → is_root e ≡ true → (e.tree).root ≡ none
unfolding is_root
root-is_root e h = ground arith

module _ (id_of : Entry → String) where
  tips_in-update :
      (es : List Entry) (u t : String) (tips : List (String × TreeTipsCache))
      → tips_in (find t (update_tips_for_tree id_of es u tips))
        ≡ (if str_eq u t then tree_tips_of id_of u es else tips_in (find t tips))
  unfolding update_tips_for_tree
  tips_in-update es u t tips =
      ground (arith, find-change u t empty_cache (set_tree_tips (tree_tips_of id_of u es)) tips)

  tips_in-subtrees :
      (es : List Entry) (u t : String) (names : List String) (tips : List (String × TreeTipsCache))
      → tips_in (find t (change u empty_cache (set_subtree_tips id_of es u names) tips))
        ≡ tips_in (find t tips)
  tips_in-subtrees es u t names tips =
      ground (arith, find-change u t empty_cache (set_subtree_tips id_of es u names) tips)

  tips_in-own :
      (es : List Entry) (e : Entry) (t : String) (tips : List (String × TreeTipsCache))
      → tips_in (find t (update_own_tree id_of es e tips)) ≡ (
          if is_root e && str_eq (id_of e) t
          then tree_tips_of id_of (id_of e) es
          else tips_in (find t tips))
  tips_in-own es e t tips = ground (arith, tips_in-update es (id_of e) t tips)

  -- the tips cached for any tree after a new entry
  put_new-tips :
      (e : Entry) (s : InMemoryInner) (t : String)
      → cached_tips t (put_new id_of e s) ≡ (
          if is_root e && str_eq (id_of e) t
          then tree_tips_of id_of (id_of e) (e ∷ s.entries)
          else if str_eq (tree_of id_of e) t
          then tree_tips_of id_of (tree_of id_of e) (e ∷ s.entries)
          else cached_tips t s)
  unfolding put_new
  put_new-tips e s t =
      let es = e ∷ s.entries in
      let u = tree_of id_of e in
      let tips = update_tips_for_tree id_of es u s.tips in
      tips_in-subtrees es u t (subtrees_of e) (update_own_tree id_of es e tips)
      ∙ tips_in-own es e t tips
      ∙ ap
          (λ other.
            if is_root e && str_eq (id_of e) t then tree_tips_of id_of (id_of e) es else other)
          (tips_in-update es u t s.tips)

  -- an entry that is in a tree is a root with that id, or belongs to the tree, or has that id
  -- although it has a root
  abbrev pub foreign : Entry → String → Bool
  foreign e t = is_some (e.tree).root && str_eq (id_of e) t

  pub tree_of-in_tree :
      (e : Entry) (t : String)
      → foreign e t ≡ false
      → in_tree id_of t e ≡ str_eq (tree_of id_of e) t
  unfolding in_tree tree_of
  tree_of-in_tree e t h = ground arith

  tree_tips_of-other :
      (e : Entry) (t : String) (es : List Entry)
      → in_tree id_of t e ≡ false
      → tree_tips_of id_of t (e ∷ es) ≡ tree_tips_of id_of t es
  unfolding tree_tips_of
  tree_tips_of-other e t es h = rw h refl

  entries-put_new : (e : Entry) (s : InMemoryInner) → (put_new id_of e s).entries ≡ e ∷ s.entries
  unfolding put_new
  entries-put_new e s = refl

  -- the cached tips of a tree are the tips of its stored entries
  abbrev pub Right : String → InMemoryInner → Type 0
  Right t s = cached_tips t s ≡ tree_tips_of id_of t s.entries

  same_tips :
      (u t : String) (es : List Entry)
      → str_eq u t ≡ true
      → tree_tips_of id_of u es ≡ tree_tips_of id_of t es
  same_tips u t es h = ap (λ v. tree_tips_of id_of v es) ((eq_iff u t).0 h)

  put_new-Right :
      (e : Entry) (s : InMemoryInner) (t : String)
      → foreign e t ≡ false
      → Right t s
      → Right t (put_new id_of e s)
  put_new-Right e s t h right =
      let es = e ∷ s.entries in
      let held : (if is_root e && str_eq (id_of e) t
            then tree_tips_of id_of (id_of e) es
            else if str_eq (tree_of id_of e) t
            then tree_tips_of id_of (tree_of id_of e) es
            else cached_tips t s)
          ≡ tree_tips_of id_of t es =
        ground (
          arith,
          right,
          same_tips (id_of e) t es,
          same_tips (tree_of id_of e) t es,
          tree_of-in_tree e t h,
          tree_tips_of-other e t s.entries,
        ) in
      put_new-tips e s t ∙ held ∙ ap (tree_tips_of id_of t) (sym (entries-put_new e s))

  -- `put` keeps the cached tips of a tree equal to the tips of its stored entries: the entries of the
  -- tree that no entry of the tree names as a parent. The new entry may be of any tree and may come
  -- before its parents or after its children, but must not have this tree's id while it belongs to
  -- another tree.
  put-Right :
      (e : Entry) (s : InMemoryInner) (t : String)
      → foreign e t ≡ false
      → Right t s
      → Right t (put id_of e s)
  unfolding put
  put-Right e s t h right = elim (Bool-cases (contains id_of (id_of e) s.entries)) [
    | inl y ↦ rw y right
    | inr n ↦ rw n (put_new-Right e s t h right)
  ]

  -- the state after some entries have arrived, the last of the list first
  abbrev pub put_all : List Entry → InMemoryInner
  put_all [] = empty_inner
  put_all (e ∷ es) = put id_of e (put_all es)

  -- In a backend that starts empty, after entries have arrived in any order and any number of times,
  -- the cached tips of a tree are the tips of its stored entries, provided that none of the entries
  -- has this tree's id while it belongs to another tree.
  pub put_all-Right :
      (t : String) (es : List Entry) → All (λ e. foreign e t ≡ false) es → Right t (put_all es)
  put_all-Right t [] h = unfold find tree_tips_of without_child in refl
  put_all-Right t (e ∷ es) h = put-Right e (put_all es) t h.0 (put_all-Right t es h.1)

-- ===== src/Backend/Storage/Read/Laws.antt =====
-- About the reads up to some tips, `get_tree_from_tips` and `store_at` of
-- crates/lib/src/backend/database/in_memory/storage.rs.
use eidetica.Base.{
  ℕ, String, List, [], ◌∷◌, true, false, some, ◌≡◌, refl, sym, ◌∙◌, ◌↔◌, str_eq, arith,
}
use eidetica.Base.Outcome.{ok}
use eidetica.Base.Sort.{sort_by, not_after, Sorted, any-sort_by, Sorted-sort_by}
use eidetica.Entry.{Entry}
use eidetica.Entry.Order.{IdOrder}
use eidetica.Backend.Storage.{InMemoryInner, in_tree, in_store, contains}
use eidetica.Backend.Storage.Read.{
  compare_by, get_tree_from_tips, store_at, check_tips, main_parents, store_parents, tree_height,
  store_height, held_tips, sort_entries_by_height, sort_entries_by_subtree_height,
}
use eidetica.Backend.Storage.Read.Part.{Part, collect-Part, none-Part, held_iff}

module _ (id_of : Entry → String) (order : IdOrder) where
  compare_by-total :
      (height : Entry → ℕ) (a b : Entry)
      → not_after (compare_by id_of order height a b) ≡ false
      → not_after (compare_by id_of order height b a) ≡ true
  compare_by-total height a b h = ground (arith, order.total (id_of a) (id_of b))

  compare_by_trans :
      (height : Entry → ℕ) (a b c : Entry)
      → not_after (compare_by id_of order height a b) ≡ true
      → not_after (compare_by id_of order height b c) ≡ true
      → not_after (compare_by id_of order height a c) ≡ true
  compare_by_trans height a b c h g = ground (arith, order.trans (id_of a) (id_of b) (id_of c))

  -- the entries that a read answers with
  pub record IsRead (height : Entry → ℕ) (P : String → Type 0) (es : List Entry) : Type 0 where
    pub members : (v : String) → (contains id_of v es ≡ true) ↔ P v
    pub in_order : Sorted (compare_by id_of order height) es

  sorted-IsRead :
      (height : Entry → ℕ) (P : String → Type 0) (es : List Entry)
      → ((v : String) → (contains id_of v es ≡ true) ↔ P v)
      → IsRead height P (sort_by (compare_by id_of order height) es)
  unfolding contains
  sorted-IsRead height P es h = record {
    members = λ v.
        let kept = any-sort_by (compare_by id_of order height) (λ e. str_eq (id_of e) v) es in
        (λ m. (h v).0 (sym kept ∙ m), λ p. kept ∙ (h v).1 p);
    in_order =
        Sorted-sort_by (compare_by id_of order height) (compare_by-total height)
          (compare_by_trans height) es;
  }

  -- If each tip is a stored entry of the tree, `get_tree_from_tips` ends and answers with the
  -- stored entries of the tree that the tips reach by parents, through stored entries of the tree,
  -- and with no others, in the order of their heights and then of their ids.
  pub get_tree_from_tips-IsRead :
      (tree : String) (tips : List String) (s : InMemoryInner)
      → check_tips id_of tree s.entries tips ≡ ok tt
      → (es : List Entry) × (get_tree_from_tips id_of order tree tips s ≡ some (ok es))
        × IsRead tree_height (Part id_of (in_tree id_of tree) main_parents s.entries tips) es
  unfolding get_tree_from_tips sort_entries_by_height
  get_tree_from_tips-IsRead tree [] s h = (
    [],
    refl,
    record { members = none-Part id_of (in_tree id_of tree) main_parents s.entries; in_order = tt },
  )
  get_tree_from_tips-IsRead tree (tip ∷ tips) s h =
      let (w, ends, part) =
        collect-Part id_of (in_tree id_of tree) main_parents s.entries (tip ∷ tips) in
      (
        sort_by (compare_by id_of order tree_height) w.found,
        rw (h, ends) refl,
        sorted-IsRead tree_height _ w.found part,
      )

  -- For any tips `store_at` ends and answers with the stored entries of the store in the tree that
  -- the tips reach by parents in the store, through such entries, and with no others, in the order
  -- of their heights in the store and then of their ids.
  pub store_at-IsRead :
      (tree name : String) (tips : List String) (s : InMemoryInner)
      → (es : List Entry) × (store_at id_of order tree name tips s ≡ some (ok es))
        × IsRead
            (store_height name)
            (Part id_of (in_store id_of tree name) (store_parents name) s.entries tips)
            es
  unfolding store_at sort_entries_by_subtree_height
  store_at-IsRead tree name [] s = (
    [],
    refl,
    record {
      members = none-Part id_of (in_store id_of tree name) (store_parents name) s.entries;
      in_order = tt;
    },
  )
  store_at-IsRead tree name (tip ∷ tips) s =
      let (w, ends, part) =
        collect-Part id_of (in_store id_of tree name) (store_parents name) s.entries
          (held_tips id_of (in_store id_of tree name) s.entries (tip ∷ tips)) in
      (
        sort_by (compare_by id_of order (store_height name)) w.found,
        rw ends refl,
        sorted-IsRead (store_height name) _ w.found (λ v.
            let held =
              held_iff id_of (in_store id_of tree name) (store_parents name) s.entries (tip ∷ tips)
                v in
            (λ m. held.0 ((part v).0 m), λ p. (part v).1 (held.1 p))),
      )

-- ===== src/Transaction/Staging.antt =====
-- About what `update_subtree` and `init_subtree_parents` of crates/lib/src/transaction/mod.rs stage.
use eidetica.Base.{
  String, List, [], ◌∷◌, true, false, Option, none, some, if◌then◌else◌, str_eq, eq_iff, ◌≡◌, refl,
  sym, ap, ◌∙◌, Bool-cases, inl, inr, arith, map,
}
use eidetica.Base.Outcome.{Outcome, ok, err, ok_or, ◌>>=◌}
use eidetica.Entry.{Entry, SubTreeNode, store_key_not_found, find_node}
use eidetica.Entry.Order.{IdOrder}
use eidetica.Entry.Builder.{
  EntryBuilder, empty_node, on_node, subtrees, data_in, set_subtree_data, set_subtree_parents,
}
use eidetica.Entry.Builder.Fields.{node_or, find_node-on_node}
use eidetica.Backend.Assoc.{find}
use eidetica.Backend.Storage.{InMemoryInner, is_in}
use eidetica.Backend.Traversal.Snapshot.{
  store_snapshot, cached_store, stored_or, cache_store_tips, compute_store_tips_from_all_entries,
}
use eidetica.Transaction.Error.{TxnError, deserialization_failed}
use eidetica.Transaction.State.{StateCache, Crdt}
use eidetica.Transaction.{
  Work, staged, restage, snapshot_of, with_parents, update_subtree, get_local_data, read_local,
}

abbrev pub map_some {ℓ} : {A : Type ℓ} → Option A → Option (Option A)
map_some none = none
map_some (some a) = some (some a)

-- what the subtree of a name becomes
abbrev pub staged_node : String → String → Option (List String) → Option SubTreeNode → SubTreeNode
staged_node name bytes none node = record (node_or (empty_node name) node) { payload = some bytes }
staged_node name bytes (some tips) node = record (node_or (empty_node name) node) {
  payload = some bytes;
  parents = tips;
}

abbrev pub node_in : String → EntryBuilder → Option SubTreeNode
node_in name b = find_node name b.subtrees

same_node :
    (name other : String) (nodes : List SubTreeNode)
    → str_eq name other ≡ true
    → find_node other nodes ≡ find_node name nodes
same_node name other nodes h = ap (λ n. find_node n nodes) (sym ((eq_iff name other).0 h))

node_in-staged :
    (name bytes other : String) (tips : Option (List String)) (b : EntryBuilder)
    → node_in other (with_parents name tips (set_subtree_data name bytes b)) ≡ (
        if str_eq name other
        then some (staged_node name bytes tips (node_in other b))
        else node_in other b)
unfolding set_subtree_data set_subtree_parents
node_in-staged name bytes other none b =
    find_node-on_node name other (λ node. record node { payload = some bytes }) b.subtrees
      (λ n. refl)
node_in-staged name bytes other (some tips) b =
    find_node-on_node name other (λ node. record node { parents = tips })
      (on_node name (λ node. record node { payload = some bytes }) b.subtrees) (λ n. refl)
    ∙ ground (
      arith,
      find_node-on_node name other (λ node. record node { payload = some bytes }) b.subtrees
          (λ n. refl),
    )

-- whether a subtree is there is whether its node is
is_in-subtrees :
    (name : String) (nodes : List SubTreeNode)
    → is_in name (map SubTreeNode.name nodes) ≡ false
    → find_node name nodes ≡ none
is_in-subtrees name [] h = refl
is_in-subtrees name (node ∷ nodes) h = ground (arith, is_in-subtrees name nodes)

module _ (id_of : Entry → String) (order : IdOrder) (from_bytes : String → String)
    (states : StateCache) (tree : String) where
  entries-store_snapshot :
      (name : String) (s : InMemoryInner) → (store_snapshot id_of tree name s).1.entries ≡ s.entries
  unfolding store_snapshot cache_store_tips
  entries-store_snapshot name s = kept (cached_store name (find tree s.tips))
    where
      kept :
          (o : Option (List String))
          → (stored_or s o (
            compute_store_tips_from_all_entries id_of tree name s.entries,
            cache_store_tips tree name
                (compute_store_tips_from_all_entries id_of tree name s.entries)
                s,
          )).1.entries
            ≡ s.entries
      kept none = refl
      kept (some ids) = refl

  -- the parents that a subtree gets when it is first written: the tips of the store
  abbrev pub first_tips : String → EntryBuilder → InMemoryInner → Option (List String)
  first_tips name b s =
      if is_in name (subtrees b)
      then none
      else some
          (snapshot_of id_of order from_bytes states tree (store_snapshot id_of tree name s).0)

  -- what is held after an update
  abbrev pub Updated : String → String → EntryBuilder → Work states → Work states → Type 0
  Updated name bytes b w v =
      (v.txn.entry_builder
        ≡ some (with_parents name (first_tips name b w.inner) (set_subtree_data name bytes b)))
      × (v.txn.encryptors ≡ w.txn.encryptors)
      × (v.txn.system_subtrees_locked ≡ w.txn.system_subtrees_locked)
      × (v.inner.entries ≡ w.inner.entries)
      × (v.cache ≡ w.cache)

  pub update_subtree-Updated :
      (name bytes : String) (b : EntryBuilder) (w : Work states)
      → w.txn.entry_builder ≡ some b
      → (v : Work states) × (update_subtree id_of order from_bytes states tree name bytes w
          ≡ some (ok tt, v))
        × Updated name bytes b w v
  unfolding update_subtree staged restage
  update_subtree-Updated name bytes b w h = elim (Bool-cases (is_in name (subtrees b))) [
    | inl y ↦ (
      record w { txn = record w.txn { entry_builder = some (set_subtree_data name bytes b) } },
      rw (h, y) refl,
      (rw y refl, refl, refl, refl, refl),
    )
    | inr n ↦ (
      record w {
        txn = record w.txn {
          entry_builder = some (
              set_subtree_parents name
                (snapshot_of id_of order from_bytes states tree
                  (store_snapshot id_of tree name w.inner).0)
                (set_subtree_data name bytes b));
        };
        inner = (store_snapshot id_of tree name w.inner).1;
      },
      rw (h, n) refl,
      (rw n refl, refl, refl, entries-store_snapshot name w.inner, refl),
    )
  ]

  pub data_in-staged :
      (name bytes other : String) (tips : Option (List String)) (b : EntryBuilder)
      → data_in other (with_parents name tips (set_subtree_data name bytes b))
        ≡ (if str_eq name other then ok bytes else data_in other b)
  unfolding data_in
  data_in-staged name bytes other tips b =
      ap
        (λ o.
          ok_or (store_key_not_found other) o >>= λ n. ok_or (store_key_not_found other) n.payload)
        (node_in-staged name bytes other tips b)
      ∙ elim (Bool-cases (str_eq name other)) [ inl y ↦ rw y (payload tips) | inr n ↦ rw n refl ]
    where
      payload :
          (tips : Option (List String))
          → ok_or
              (store_key_not_found other)
              (staged_node name bytes tips (node_in other b)).payload
            ≡ ok bytes
      payload none = refl
      payload (some ids) = refl

  module _ {T : Type 0} (crdt : Crdt T) where
    abbrev pub local_in : String → EntryBuilder → Outcome TxnError (Option T)
    local_in name b = read_local id_of order from_bytes states tree crdt name (data_in name b)

    -- what is staged is read without a change
    pub get_local_data_lem :
        (name : String) (b : EntryBuilder) (w : Work states)
        → w.txn.entry_builder ≡ some b
        → get_local_data id_of order from_bytes states tree crdt name w ≡ some (local_in name b, w)
    unfolding get_local_data staged
    get_local_data_lem name b w h = rw h refl

    pub local_in-staged :
        (name bytes other : String) (tips : Option (List String)) (b : EntryBuilder)
        → str_eq bytes "" ≡ false
        → local_in other (with_parents name tips (set_subtree_data name bytes b)) ≡ (
            if str_eq name other
            then ok_or (deserialization_failed other) (map_some (crdt.from_json bytes))
            else local_in other b)
    local_in-staged name bytes other tips b text =
        ap (read_local id_of order from_bytes states tree crdt other)
          (data_in-staged name bytes other tips b)
        ∙ elim (Bool-cases (str_eq name other)) [
          | inl y ↦ rw (y, text) (parsed (crdt.from_json bytes))
          | inr n ↦ rw n refl
        ]
      where
        parsed :
            (o : Option T)
            → ◌≡◌ {A = Outcome TxnError (Option T)}
                (elim o [ none ↦ err (deserialization_failed other) | some t ↦ ok (some t) ])
                (ok_or (deserialization_failed other) (map_some o))
        parsed none = refl
        parsed (some t) = refl

    -- What `update_subtree` stages is what `get_local_data` reads for that store afterwards, and for
    -- any other store it reads what it read before; provided that the transaction is not committed
    -- and that some bytes are staged.
    pub get_local_data-update_subtree :
        (name bytes other : String) (b : EntryBuilder) (w : Work states)
        → w.txn.entry_builder ≡ some b
        → str_eq bytes "" ≡ false
        → (v : Work states) × (update_subtree id_of order from_bytes states tree name bytes w
            ≡ some (ok tt, v))
          × (get_local_data id_of order from_bytes states tree crdt other w
              ≡ some (local_in other b, w))
          × (get_local_data id_of order from_bytes states tree crdt other v
              ≡ some (
                if str_eq name other
                    then ok_or (deserialization_failed other) (map_some (crdt.from_json bytes))
                    else local_in other b,
                v,
              ))
    get_local_data-update_subtree name bytes other b w h text =
        let (v, e, up) = update_subtree-Updated name bytes b w h in
        (
          v,
          e,
          get_local_data_lem other b w h,
          get_local_data_lem other _ v up.0
              ∙ ap (λ m. some (m, v))
                  (local_in-staged name bytes other (first_tips name b w.inner) b text),
        )

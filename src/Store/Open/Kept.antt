-- ===== src/Store/Open/Kept.antt =====
-- What opening a store by `get_store` of crates/lib/src/transaction/mod.rs leaves staged.
use eidetica.Base.{
  String, List, false, Option, none, some, str_eq, ◌≡◌, refl, ap, ◌∙◌, Bool-cases, Option-cases,
  inl, inr,
}
use eidetica.Base.Outcome.{Outcome, ok, ok_or, ◌>>=◌}
use eidetica.Crdt.Value.{Doc}
use eidetica.Entry.{Entry, EntryError, SubTreeNode, store_key_not_found, find_node}
use eidetica.Entry.Order.{IdOrder}
use eidetica.Entry.Builder.{EntryBuilder, empty_node, data_in, set_subtree_parents}
use eidetica.Entry.Builder.Fields.{node_or, find_node-on_node}
use eidetica.Transaction.{Work, index}
use eidetica.Transaction.Error.{TxnError}
use eidetica.Transaction.Staging.{data_in-staged, get_local_data_lem}
use eidetica.Transaction.State.{StateCache}
use eidetica.Store.Codec.{DocJson, doc_crdt, local_data}
use eidetica.Store.Codec.Laws.{local_data-builder}
use eidetica.Store.Registry.{StrategyJson}
use eidetica.Store.Open.{Kind, get_store}
use eidetica.Store.Open.Ends.{get_store-Ends}

abbrev payload_of : String → Option SubTreeNode → Outcome EntryError String
payload_of name o =
    ok_or (store_key_not_found name) o >>= λ n. ok_or (store_key_not_found name) n.payload

-- parents are no data, also where they make the subtree
data_in-set_subtree_parents :
    (name other : String) (tips : List String) (b : EntryBuilder)
    → data_in other (set_subtree_parents name tips b) ≡ data_in other b
unfolding data_in set_subtree_parents
data_in-set_subtree_parents name other tips b =
    ap (payload_of other)
      (find_node-on_node name other (λ node. record node { parents = tips }) b.subtrees (λ n. refl))
    ∙ elim (Bool-cases (str_eq name other)) [
      | inl y ↦ rw y (same (find_node other b.subtrees))
      | inr n ↦ rw n refl
    ]
  where
    same :
        (o : Option SubTreeNode)
        → payload_of other (some (record (node_or (empty_node name) o) { parents = tips }))
          ≡ payload_of other o
    same none = refl
    same (some node) = refl

module _ (id_of : Entry → String) (order : IdOrder) (from_bytes : String → String)
    (states : StateCache) (tree : String) (strategies : StrategyJson) (json : DocJson) where
  abbrev staged_data : String → Option EntryBuilder → Option (Outcome EntryError String)
  staged_data other none = none
  staged_data other (some b) = some (data_in other b)

  local_data-same :
      (other : String) (l : Option Doc) (b : EntryBuilder) (w u : Work states)
      → w.txn.entry_builder ≡ some b
      → staged_data other u.txn.entry_builder ≡ some (data_in other b)
      → local_data id_of order from_bytes states tree json other w ≡ some (ok l, w)
      → local_data id_of order from_bytes states tree json other u ≡ some (ok l, u)
  unfolding local_data
  local_data-same other l b w u h same read = elim (Option-cases u.txn.entry_builder) [
    | inl e ↦ absurd (cc (rw e at same))
    | inr (c, e) ↦
        let in_c =
          get_local_data_lem id_of order from_bytes states tree (doc_crdt json) other c u e in
        let in_b =
          get_local_data_lem id_of order from_bytes states tree (doc_crdt json) other b w h in
        let held : data_in other c ≡ data_in other b = cc (rw e at same) in
        cc (in_c, in_b, held, read)
  ]

  -- Opening a store ends, and leaves what is staged for any store but the registry.
  pub get_store-local_data :
      (kind : Kind) (name other : String) (l : Option Doc) (w : Work states)
      → str_eq index other ≡ false
      → local_data id_of order from_bytes states tree json other w ≡ some (ok l, w)
      → (m : Outcome TxnError (Unit {0})) × (u : Work states) × (get_store id_of order from_bytes
            states tree strategies json kind name w
          ≡ some (m, u))
        × (local_data id_of order from_bytes states tree json other u ≡ some (ok l, u))
  get_store-local_data kind name other l w apart read =
      let (b, built, w_same) =
        local_data-builder id_of order from_bytes states tree json other w w l read in
      let (m, u, ends, kept) =
        get_store-Ends id_of order from_bytes states tree strategies json
          (λ o. staged_data other o ≡ some (data_in other b))
          (λ n tips c i. ap some (data_in-set_subtree_parents n other tips c) ∙ i)
          (λ bytes c i.
            ap some (
              data_in-staged id_of order from_bytes states tree index bytes other none c
              ∙ rw apart refl)
            ∙ i)
          kind name w (ap (staged_data other) built) in
      (m, u, ends, local_data-same other l b w u built kept read)

-- ===== src/Store/Codec/Laws.antt =====
-- About the calls that the stores of crates/lib/src/store/ share.
use eidetica.Base.{String, Option, none, some, eq_refl, ◌≡◌, refl, ap, ◌∙◌, Option-cases, inl, inr}
use eidetica.Base.Outcome.{ok, err}
use eidetica.Crdt.Value.{Doc}
use eidetica.Entry.{Entry}
use eidetica.Entry.Order.{IdOrder}
use eidetica.Entry.Builder.{EntryBuilder}
use eidetica.Transaction.{Work, staged, get_local_data}
use eidetica.Transaction.Error.{already_committed}
use eidetica.Transaction.Staging.{update_subtree-Updated, get_local_data_lem, local_in-staged}
use eidetica.Transaction.State.{StateCache}
use eidetica.Store.Codec.{DocJson, doc_crdt, local_data, write}

module _ (id_of : Entry → String) (order : IdOrder) (from_bytes : String → String)
    (states : StateCache) (tree : String) (json : DocJson) (name : String) where
  -- reading what is staged changes nothing, and says that the transaction is not committed
  pub local_data-builder :
      (w u : Work states) (l : Option Doc)
      → local_data id_of order from_bytes states tree json name w ≡ some (ok l, u)
      → (b : EntryBuilder) × (w.txn.entry_builder ≡ some b) × (u ≡ w)
  unfolding local_data
  local_data-builder w u l h = elim (Option-cases w.txn.entry_builder) [
    | inl e ↦ absurd (cc (h, committed w e))
    | inr (b, e) ↦ (
      b,
      e,
      cc (h, get_local_data_lem id_of order from_bytes states tree (doc_crdt json) name b w e),
    )
  ]
    where
      committed :
          (w : Work states)
          → w.txn.entry_builder ≡ none
          → get_local_data id_of order from_bytes states tree (doc_crdt json) name w
            ≡ some (err already_committed, w)
      committed w e = unfold get_local_data staged in rw e refl

  -- a document that is staged is what is read
  pub write-local_data :
      (d : Doc) (bytes : String) (b : EntryBuilder) (w : Work states)
      → json.to_json d ≡ some bytes
      → w.txn.entry_builder ≡ some b
      → (v : Work states) × (write id_of order from_bytes states tree json name d w
          ≡ some (ok tt, v))
        × (local_data id_of order from_bytes states tree json name v ≡ some (ok (some d), v))
        × ((c : EntryBuilder) × (v.txn.entry_builder ≡ some c))
  unfolding local_data write
  write-local_data d bytes b w text h =
      let (v, e, up) = update_subtree-Updated id_of order from_bytes states tree name bytes b w h in
      (
        v,
        rw text e,
        get_local_data_lem id_of order from_bytes states tree (doc_crdt json) name _ v up.0
            ∙ ap (λ m. some (m, v))
                (local_in-staged id_of order from_bytes states tree (doc_crdt json) name bytes name
                    _ b (json.json_has_text d bytes text)
                  ∙ rw (eq_refl name, json.from_to_json d bytes text) refl),
        (_, up.0),
      )

  -- what is staged could be written
  pub write-text :
      (d : Doc) (w v : Work states)
      → write id_of order from_bytes states tree json name d w ≡ some (ok tt, v)
      → (bytes : String) × (json.to_json d ≡ some bytes)
  unfolding write
  write-text d w v h = elim (Option-cases (json.to_json d)) [
    | inl e ↦ absurd (cc (rw e at h))
    | inr found ↦ found
  ]

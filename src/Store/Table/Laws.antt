-- ===== src/Store/Table/Laws.antt =====
-- About rows that were written in the same transaction: crates/lib/src/store/table.rs.
use eidetica.Base.{
  String, true, false, Option, some, ◌≡◌, refl, subst, ap, ◌∙◌, Bool-cases, inl, inr,
}
use eidetica.Base.Outcome.{Outcome, ok, err}
use eidetica.Crdt.Value.{text, deleted, Doc}
use eidetica.Crdt.Doc as CrdtDoc
use eidetica.Crdt.Doc.{remove, get_raw, is_tombstone}
use eidetica.Crdt.Doc.Laws.{addressable, get_raw-set}
use eidetica.Entry.{Entry}
use eidetica.Entry.Order.{IdOrder}
use eidetica.Transaction.{Work}
use eidetica.Transaction.Error.{TxnError, key_not_found}
use eidetica.Transaction.Monad.{go_on, go_on-ok}
use eidetica.Transaction.State.{StateCache}
use eidetica.Store.Codec.{DocJson, RowJson, doc_or_new, local_data, write}
use eidetica.Store.Codec.Laws.{local_data-builder, write-local_data, write-text}
use eidetica.Store.Table.{get, set, insert, delete, succeeds}

tombstone-text :
    (key t : String) (d : Doc) → get_raw key d ≡ some (text t) → is_tombstone key d ≡ false
unfolding is_tombstone
tombstone-text key t d h = rw (is_tombstone, h) refl

tombstone-deleted :
    (key : String) (d : Doc) → get_raw key d ≡ some deleted → is_tombstone key d ≡ true
unfolding is_tombstone
tombstone-deleted key d h = rw (is_tombstone, h) refl

module _ {R : Type 0} (rows : RowJson R) (id_of : Entry → String) (order : IdOrder)
    (from_bytes : String → String) (states : StateCache) (tree : String) (json : DocJson)
    (name : String) where
  abbrev local_here : Work states → Option (Outcome TxnError (Option Doc) × Work states)
  local_here w = local_data id_of order from_bytes states tree json name w

  abbrev get_here : String → Work states → Option (Outcome TxnError R × Work states)
  get_here key w = get rows id_of order from_bytes states tree json name key w

  pub get-of_text :
      (key t : String) (r : R) (d : Doc) (w : Work states)
      → local_here w ≡ some (ok (some d), w)
      → get_raw key d ≡ some (text t)
      → rows.from_text t ≡ some r
      → get_here key w ≡ some (ok r, w)
  unfolding get CrdtDoc.get
  get-of_text key t r d w h raw p = rw (h, tombstone-text key t d raw, raw, p) refl

  get-of_tombstone :
      (key : String) (d : Doc) (w : Work states)
      → local_here w ≡ some (ok (some d), w)
      → get_raw key d ≡ some deleted
      → get_here key w ≡ some (err (key_not_found name key), w)
  unfolding get CrdtDoc.get
  get-of_tombstone key d w h raw = rw (h, tombstone-deleted key d raw) refl

  -- what holds after a row was written: it is read, and what is staged can be read
  abbrev pub Written : String → R → Doc → Work states → Type 0
  Written key row d u = (get_here key u ≡ some (ok row, u)) × (local_here u ≡ some (ok (some d), u))

  -- a row that was set
  pub set-Written :
      (key t bytes : String) (row : R) (l : Option Doc) (w : Work states)
      → local_here w ≡ some (ok l, w)
      → json.to_json (CrdtDoc.set key (text t) (doc_or_new l)).1 ≡ some bytes
      → addressable key ≡ true
      → rows.to_text row ≡ some t
      → rows.from_text t ≡ some row
      → (u : Work states) × (set rows id_of order from_bytes states tree json name key row w
          ≡ some (ok tt, u))
        × Written key row (CrdtDoc.set key (text t) (doc_or_new l)).1 u
  unfolding set
  set-Written key t bytes row l w h text_of_doc place written parsed =
      let (b, e, same) = local_data-builder id_of order from_bytes states tree json name w w l h in
      let (u, wrote, read, more) =
        write-local_data id_of order from_bytes states tree json name
          (CrdtDoc.set key (text t) (doc_or_new l)).1 bytes b w text_of_doc e in
      (
        u,
        rw (h, written, wrote) refl,
        (
          get-of_text key t row _ u read (get_raw-set key (text t) (doc_or_new l) ∙ rw place refl)
              parsed,
          read,
        ),
      )

  -- `insert` is `set` under its key
  pub insert-Written :
      (uuid t bytes : String) (row : R) (l : Option Doc) (w : Work states)
      → local_here w ≡ some (ok l, w)
      → json.to_json (CrdtDoc.set uuid (text t) (doc_or_new l)).1 ≡ some bytes
      → addressable uuid ≡ true
      → rows.to_text row ≡ some t
      → rows.from_text t ≡ some row
      → (u : Work states) × (insert rows id_of order from_bytes states tree json name uuid row w
          ≡ some (ok uuid, u))
        × Written uuid row (CrdtDoc.set uuid (text t) (doc_or_new l)).1 u
  unfolding insert set
  insert-Written uuid t bytes row l w h text_of_doc place written parsed =
      let (u, wrote, after) = set-Written uuid t bytes row l w h text_of_doc place written parsed in
      (u, ap (λ m. go_on m (λ _ v. some (ok uuid, v))) wrote, after)

  abbrev removed : String → Option Doc → Doc
  unfolding remove
  removed key l = (remove key (doc_or_new l)).1

  remove-get :
      (key : String) (s u : Work states)
      → addressable key ≡ true
      → go_on (local_here s) (λ l w.
        go_on
          (write id_of order from_bytes states tree json name (removed key l) w)
          (λ _ v. some (ok true, v)))
        ≡ some (ok true, u)
      → get_here key u ≡ some (err (key_not_found name key), u)
  unfolding remove
  remove-get key s u place h =
      let (l, t, e, rest) = go_on-ok (local_here s) _ true u h in
      let (b, built, same) =
        local_data-builder id_of order from_bytes states tree json name s t l e in
      let (o, x, wrote, ended) =
        go_on-ok (write id_of order from_bytes states tree json name (removed key l) t) _ true u
          rest in
      let (bytes, text_of_doc) =
        write-text id_of order from_bytes states tree json name (removed key l) t x wrote in
      let (v, written, read, more) =
        write-local_data id_of order from_bytes states tree json name (removed key l) bytes b t
          text_of_doc (ap (λ w. w.txn.entry_builder) same ∙ built) in
      let ends : v ≡ u = cc (written, wrote, ended) in
      subst (λ w. get_here key w ≡ some (err (key_not_found name key), w)) ends
        (get-of_tombstone key _ v read (get_raw-set key deleted (doc_or_new l) ∙ rw place refl))

  -- After `delete` has answered that it deleted a row whose key names a place, `get` answers in the
  -- same transaction that the key is not found, whatever the state below has.
  pub delete-get_none :
      (key : String) (w u : Work states)
      → addressable key ≡ true
      → delete rows id_of order from_bytes states tree json name key w ≡ some (ok true, u)
      → get_here key u ≡ some (err (key_not_found name key), u)
  unfolding delete
  delete-get_none key w u place h =
      let (exists, s, e, rest) =
        go_on-ok (succeeds rows id_of order from_bytes states tree json name (get_here key w)) _
          true u h in
      elim (Bool-cases exists) [
        | inl y ↦ remove-get key s u place (rw y at rest)
        | inr n ↦ absurd (cc (rw n at rest))
      ]

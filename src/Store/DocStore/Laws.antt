-- ===== src/Store/DocStore/Laws.antt =====
-- About reading what was written in the same transaction: crates/lib/src/store/docstore.rs.
use eidetica.Base.{
  String, true, false, Option, some, ◌≡◌, refl, subst, ap, ◌∙◌, Bool-cases, inl, inr,
}
use eidetica.Base.Outcome.{Outcome, ok}
use eidetica.Crdt.Value.{Value, null, bool, int, text, doc, list, deleted, Doc, is_deleted}
use eidetica.Crdt.Doc as CrdtDoc
use eidetica.Crdt.Doc.{remove, get_raw, shown}
use eidetica.Crdt.Doc.Laws.{addressable, get_raw-set, get_raw-set_ne, Apart, walk}
use eidetica.Entry.{Entry}
use eidetica.Entry.Order.{IdOrder}
use eidetica.Transaction.{Work}
use eidetica.Transaction.Error.{TxnError}
use eidetica.Transaction.Monad.{go_on, go_on-ok}
use eidetica.Transaction.State.{StateCache}
use eidetica.Store.Codec.{DocJson, doc_or_new, local_data, write}
use eidetica.Store.Codec.Laws.{local_data-builder, write-local_data, write-text}
use eidetica.Store.DocStore.{get_stored, get, set, get_all, delete, staged_value, is_some_value}

module _ (id_of : Entry → String) (order : IdOrder) (from_bytes : String → String)
    (states : StateCache) (tree : String) (json : DocJson) (name : String) where
  abbrev local_here : Work states → Option (Outcome TxnError (Option Doc) × Work states)
  local_here w = local_data id_of order from_bytes states tree json name w

  abbrev get_here : String → Work states → Option (Outcome TxnError Value × Work states)
  get_here key w = get id_of order from_bytes states tree json name key w

  staged_value-live :
      (key : String) (v : Value)
      → is_deleted v ≡ false
      → staged_value name key (shown (some v)) ≡ some (ok v)
  staged_value-live key null h = refl
  staged_value-live key (bool b) h = refl
  staged_value-live key (int n) h = refl
  staged_value-live key (text s) h = refl
  staged_value-live key (doc a m) h = refl
  staged_value-live key (list l) h = refl
  staged_value-live key deleted h = absurd (cc)

  get-of_local :
      (key : String) (v : Value) (d : Doc) (w : Work states)
      → local_here w ≡ some (ok (some d), w)
      → get_raw key d ≡ some v
      → is_deleted v ≡ false
      → get_here key w ≡ some (ok v, w)
  unfolding get CrdtDoc.get
  get-of_local key v d w h r live = rw (h, r, staged_value-live key v live) refl

  -- If what is staged under a key is a tombstone, `get` answers from the state below.
  get-of_tombstone :
      (key : String) (d : Doc) (w : Work states)
      → local_here w ≡ some (ok (some d), w)
      → get_raw key d ≡ some deleted
      → get_here key w ≡ get_stored id_of order from_bytes states tree json name key w
  unfolding get CrdtDoc.get
  get-of_tombstone key d w h r = rw (h, r) refl

  -- After `set` has staged a value that is no tombstone, under a key that names a place, `get` answers
  -- with that value, whatever the state below has, and under a key that parts from it at the first
  -- step still with the value that was staged there, if one was. That `set` succeeds needs only that
  -- what was staged before can be read, and what it stages be written.
  pub set-get :
      (key bytes : String) (v : Value) (l : Option Doc) (w : Work states)
      → local_here w ≡ some (ok l, w)
      → json.to_json (CrdtDoc.set key v (doc_or_new l)).1 ≡ some bytes
      → addressable key ≡ true
      → is_deleted v ≡ false
      → (u : Work states) × (set id_of order from_bytes states tree json name key v w
          ≡ some (ok tt, u))
        × (get_here key u ≡ some (ok v, u))
        × ((other : String) (x : Value)
            → Apart (walk key) (walk other)
            → get_raw other (doc_or_new l) ≡ some x
            → is_deleted x ≡ false
            → get_here other u ≡ some (ok x, u))
  unfolding set
  set-get key bytes v l w h text_of_doc place live =
      let (b, e, same) = local_data-builder id_of order from_bytes states tree json name w w l h in
      let (u, written, read, more) =
        write-local_data id_of order from_bytes states tree json name
          (CrdtDoc.set key v (doc_or_new l)).1 bytes b w text_of_doc e in
      (
        u,
        rw (h, written) refl,
        get-of_local key v _ u read (get_raw-set key v (doc_or_new l) ∙ rw place refl) live,
        λ other x far staged alive.
            get-of_local other x _ u read (get_raw-set_ne key other v (doc_or_new l) far ∙ staged)
              alive,
      )

  abbrev removed : String → Option Doc → Doc
  unfolding remove
  removed key l = (remove key (doc_or_new l)).1

  -- staging a tombstone
  remove-get :
      (key : String) (s u : Work states)
      → addressable key ≡ true
      → go_on (local_here s) (λ l w.
        go_on
          (write id_of order from_bytes states tree json name (removed key l) w)
          (λ _ v. some (ok true, v)))
        ≡ some (ok true, u)
      → get_here key u ≡ get_stored id_of order from_bytes states tree json name key u
  unfolding remove
  remove-get key s u place h =
      let (l, t, e, rest) = go_on-ok (local_here s) _ true u h in
      let (b, built, same) =
        local_data-builder id_of order from_bytes states tree json name s t l e in
      let (o, x, wrote, ended) =
        go_on-ok (write id_of order from_bytes states tree json name (removed key l) t) _ true u
          rest in
      let (bytes, text_of_doc) =
        write-text id_of order from_bytes states tree json name (removed key l) t x wrote in
      let (v, written, read, more) =
        write-local_data id_of order from_bytes states tree json name (removed key l) bytes b t
          text_of_doc (ap (λ w. w.txn.entry_builder) same ∙ built) in
      let ends : v ≡ u = cc (written, wrote, ended) in
      subst (λ w. get_here key w ≡ get_stored id_of order from_bytes states tree json name key w)
        ends
        (get-of_tombstone key _ v read (get_raw-set key deleted (doc_or_new l) ∙ rw place refl))

  -- After `delete` has answered that it deleted a key that names a place, `get` answers in the same
  -- transaction as if nothing were staged, with the value of the state below if there is one.
  pub delete-get :
      (key : String) (w u : Work states)
      → addressable key ≡ true
      → delete id_of order from_bytes states tree json name key w ≡ some (ok true, u)
      → get_here key u ≡ get_stored id_of order from_bytes states tree json name key u
  unfolding delete
  delete-get key w u place h =
      let (d, s, e, rest) =
        go_on-ok (get_all id_of order from_bytes states tree json name w) _ true u h in
      elim (Bool-cases (is_some_value (CrdtDoc.get key d))) [
        | inl y ↦ remove-get key s u place (rw y at rest)
        | inr n ↦ absurd (cc (rw n at rest))
      ]

-- ===== src/Store/Table.antt =====
-- `Table` of crates/lib/src/store/table.rs: rows under keys, each as a text in the store's document.
pub mod Laws
use eidetica.Base.{String, List, [], ◌∷◌, Bool, true, false, Option, none, some, if◌then◌else◌}
use eidetica.Base.Outcome.{Outcome, ok, err, ok_or}
use eidetica.Crdt.Key.{by_name}
use eidetica.Crdt.Value.{Value, text, deleted, Entries, end, entry, Doc, as_text, is_deleted}
use eidetica.Crdt.Doc as CrdtDoc
use eidetica.Crdt.Doc.{is_tombstone, remove}
use eidetica.Crdt.Merge.{merge_doc}
use eidetica.Entry.{Entry}
use eidetica.Entry.Order.{IdOrder}
use eidetica.Transaction.{Work, Step}
use eidetica.Transaction.Error.{TxnError, key_not_found, deserialization_failed, store_failed}
use eidetica.Transaction.Monad.{pure, lift, ◌>>=◌, ◌>>◌}
use eidetica.Transaction.State.{StateCache}
use eidetica.Store.Codec.{DocJson, RowJson, doc_or_new, local_data, full_state, write}

-- the text of a value, if it is one
abbrev pub text_in : Option Value → Option String
text_in none = none
text_in (some v) = as_text v

abbrev pub merge_staged : Doc → Option Doc → Doc
merge_staged d none = d
merge_staged d (some local) = merge_doc d local

module _ {R : Type 0} (rows : RowJson R) where
  abbrev pub parse : String → String → Outcome TxnError R
  parse name t = ok_or (deserialization_failed name) (rows.from_text t)

  -- What is staged decides, if it is a tombstone or a text.
  abbrev pub staged_row : String → String → Option Doc → Option (Outcome TxnError R)
  staged_row name key none = none
  staged_row name key (some d) =
      if is_tombstone key d
      then some (err (key_not_found name key))
      else elim (text_in (CrdtDoc.get key d)) [ none ↦ none | some t ↦ some (parse name t) ]

  abbrev pub row_of : String → String → Option String → Outcome TxnError R
  row_of name key none = err (key_not_found name key)
  row_of name key (some t) = parse name t

  -- the loop over the keys and values that are no tombstones
  abbrev pub add_row :
      (R → Bool)
      → String
      → R
      → Outcome TxnError (List (String × R))
      → Outcome TxnError (List (String × R))
  add_row query key r (err e) = err e
  add_row query key r (ok found) = ok (if query r then (key, r) ∷ found else found)

  unfoldable pub search_in :
      String → (R → Bool) → Entries by_name → Outcome TxnError (List (String × R))
  search_in name query end = ok []
  search_in name query (entry key v rest) =
      let others = search_in name query rest in
      elim (as_text v) [
        | none ↦ others
        | some t ↦ elim (parse name t) [ err e ↦ err e | ok r ↦ add_row query key r others ]
      ]

  module _ (id_of : Entry → String) (order : IdOrder) (from_bytes : String → String)
      (states : StateCache) (tree : String) (json : DocJson) (name : String) where
    abbrev Call : Type 0 → Type 0
    Call A = Step id_of order from_bytes states tree A

    abbrev staged_here : Call (Option Doc)
    staged_here = local_data id_of order from_bytes states tree json name

    abbrev state_here : Call Doc
    state_here = full_state id_of order from_bytes states tree json name

    abbrev write_here : Doc → Call (Unit {0})
    write_here d = write id_of order from_bytes states tree json name d

    abbrev pub staged_or : Option (Outcome TxnError R) → Call R → Call R
    staged_or none stored = stored
    staged_or (some m) stored = lift m

    unfoldable pub get : String → Call R
    unfolding local_data full_state is_tombstone CrdtDoc.get
    get key = staged_here >>= λ local.
        staged_or (staged_row name key local)
          (state_here >>= λ d. lift (row_of name key (text_in (CrdtDoc.get key d))))

    abbrev pub write_text : String → Option Doc → Option String → Call (Unit {0})
    write_text key local none = lift (err (store_failed name))
    write_text key local (some t) = write_here (CrdtDoc.set key (text t) (doc_or_new local)).1

    unfoldable pub set : String → R → Call (Unit {0})
    unfolding local_data write CrdtDoc.set
    set key row = staged_here >>= λ local. write_text key local (rows.to_text row)

    -- The key is a UUID, drawn at random by the crate uuid.
    unfoldable pub insert : String → R → Call String
    unfolding local_data write CrdtDoc.set
    insert uuid row =
        (staged_here >>= λ local. write_text uuid local (rows.to_text row)) >> pure uuid

    -- whether `get` succeeds; its error is dropped
    abbrev pub succeeds :
        Option (Outcome TxnError R × Work states) → Option (Outcome TxnError Bool × Work states)
    succeeds none = none
    succeeds (some (ok r, w)) = some (ok true, w)
    succeeds (some (err e, w)) = some (ok false, w)

    unfoldable pub delete : String → Call Bool
    unfolding get local_data write remove
    delete key = (λ w. succeeds (get key w)) >>= λ exists.
        if exists
        then (staged_here >>= λ local. write_here (remove key (doc_or_new local)).1 >> pure true)
        else pure false

    unfoldable pub search : (R → Bool) → Call (List (String × R))
    unfolding full_state local_data search_in
    search query = do
      d ← state_here
      local ← staged_here
      lift (search_in name query (merge_staged d local).children)

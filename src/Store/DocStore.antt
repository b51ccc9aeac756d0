-- ===== src/Store/DocStore.antt =====
-- `DocStore` of crates/lib/src/store/docstore.rs. `get_path` and `set_path` take the same paths that
-- `get_result` and `set` read their keys as.
pub mod Laws
use eidetica.Base.{String, Bool, true, false, Option, none, some, if◌then◌else◌}
use eidetica.Base.Outcome.{Outcome, ok, err, ok_or}
use eidetica.Crdt.Key.{by_position}
use eidetica.Crdt.Value.{Value, null, bool, int, text, doc, list, deleted, Entries, Doc}
use eidetica.Crdt.Doc as CrdtDoc
use eidetica.Crdt.Doc.{remove}
use eidetica.Crdt.Merge.{merge_doc}
use eidetica.Entry.{Entry}
use eidetica.Entry.Order.{IdOrder}
use eidetica.Transaction.{Work, Step}
use eidetica.Transaction.Error.{TxnError, key_not_found, type_mismatch}
use eidetica.Transaction.Monad.{pure, lift, go_on, ◌>>=◌, ◌>>◌}
use eidetica.Transaction.State.{StateCache}
use eidetica.Store.Codec.{DocJson, doc_or_new, local_data, full_state, write}

-- the match on what is staged; `Doc::get` shows no tombstone
abbrev pub staged_value : String → String → Option Value → Option (Outcome TxnError Value)
staged_value name key none = none
staged_value name key (some deleted) = some (err (key_not_found name key))
staged_value name key (some v) = some (ok v)

abbrev pub value_in : String → Option Doc → Option Value
value_in key none = none
value_in key (some d) = CrdtDoc.get key d

abbrev pub is_some_value : Option Value → Bool
is_some_value none = false
is_some_value (some v) = true

-- `merge` of what is staged into the full state, if anything is
abbrev pub with_staged : Doc → Option Doc → Doc
with_staged d none = d
with_staged d (some local) = merge_doc d local

abbrev pub text_of : String → String → Value → Outcome TxnError String
text_of name key (text s) = ok s
text_of name key (doc a m) = err (type_mismatch name "String" "Doc")
text_of name key (list l) = err (type_mismatch name "String" "list")
text_of name key deleted = err (key_not_found name key)
text_of name key _ = err (type_mismatch name "String" "Other")

abbrev pub list_of : String → Value → Outcome TxnError (Entries by_position)
list_of name (list l) = ok l
list_of name _ = err (type_mismatch name "list" "Other")

abbrev pub node_of : String → Value → Outcome TxnError Doc
node_of name (doc a m) = ok (record { atomic = a; children = m })
node_of name _ = err (type_mismatch name "Doc" "Other")

module _ (id_of : Entry → String) (order : IdOrder) (from_bytes : String → String)
    (states : StateCache) (tree : String) (json : DocJson) (name : String) where
  abbrev Call : Type 0 → Type 0
  Call A = Step id_of order from_bytes states tree A

  abbrev staged_here : Call (Option Doc)
  staged_here = local_data id_of order from_bytes states tree json name

  abbrev state_here : Call Doc
  state_here = full_state id_of order from_bytes states tree json name

  abbrev write_here : Doc → Call (Unit {0})
  write_here d = write id_of order from_bytes states tree json name d

  -- the answer from the full state
  unfoldable pub get_stored : String → Call Value
  unfolding full_state CrdtDoc.get
  get_stored key = state_here >>= λ d. lift (ok_or (key_not_found name key) (CrdtDoc.get key d))

  abbrev pub staged_or : Option (Outcome TxnError Value) → Call Value → Call Value
  staged_or none stored = stored
  staged_or (some m) stored = lift m

  unfoldable pub get : String → Call Value
  unfolding local_data get_stored CrdtDoc.get
  get key = staged_here >>= λ local.
      staged_or (staged_value name key (value_in key local)) (get_stored key)

  abbrev pub shown_or : Option Value → Call Value → Call Value
  shown_or none stored = stored
  shown_or (some v) stored = pure v

  unfoldable pub get_result : String → Call Value
  unfolding local_data get_stored CrdtDoc.get
  get_result key = staged_here >>= λ local. shown_or (value_in key local) (get_stored key)

  unfoldable pub get_string : String → Call String
  unfolding get_result
  get_string key = get_result key >>= λ v. lift (text_of name key v)

  unfoldable pub get_list : String → Call (Entries by_position)
  unfolding get
  get_list key = get key >>= λ v. lift (list_of name v)

  unfoldable pub get_node : String → Call Doc
  unfolding get
  get_node key = get key >>= λ v. lift (node_of name v)

  unfoldable pub set : String → Value → Call (Unit {0})
  unfolding write CrdtDoc.set
  set key v = staged_here >>= λ local. write_here (CrdtDoc.set key v (doc_or_new local)).1

  unfoldable pub insert : String → Value → Call (Option Value)
  unfolding write CrdtDoc.set CrdtDoc.get
  insert key v = do
    local ← staged_here
    write_here (CrdtDoc.set key v (doc_or_new local)).1
    pure (CrdtDoc.get key (doc_or_new local))

  unfoldable pub get_all : Call Doc
  unfolding full_state local_data
  get_all = do d ← state_here; local ← staged_here; pure (with_staged d local)

  unfoldable pub delete : String → Call Bool
  unfolding get_all write remove CrdtDoc.get
  delete key = do
    d ← get_all
    (if is_some_value (CrdtDoc.get key d)
        then (staged_here >>= λ local. write_here (remove key (doc_or_new local)).1 >> pure true)
        else pure false)

  -- An error counts as a key that is not there.
  abbrev pub or_false :
      Option (Outcome TxnError Bool × Work states) → Option (Outcome TxnError Bool × Work states)
  or_false none = none
  or_false (some (ok b, w)) = some (ok b, w)
  or_false (some (err e, w)) = some (ok false, w)

  abbrev pub has_local : Option Doc → String → Bool
  has_local none key = false
  has_local (some d) key = CrdtDoc.contains_key key d

  unfoldable pub contains_key : String → Call Bool
  unfolding local_data full_state CrdtDoc.contains_key
  contains_key key w = or_false (
      go_on (or_none (staged_here w)) (λ local.
        if has_local local key
        then pure true
        else state_here >>= λ d. pure (CrdtDoc.contains_key key d)))
    where
      or_none :
          Option (Outcome TxnError (Option Doc) × Work states)
          → Option (Outcome TxnError (Option Doc) × Work states)
      or_none none = none
      or_none (some (ok d, u)) = some (ok d, u)
      or_none (some (err e, u)) = some (ok none, u)

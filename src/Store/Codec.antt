-- ===== src/Store/Codec.antt =====
-- How the stores of crates/lib/src/store/ write documents and rows: serde_json, which reads back what
-- it could write; and the calls that they share.
pub mod Laws
use eidetica.Base.{String, Option, none, some, false, str_eq, ◌≡◌}
use eidetica.Base.Outcome.{ok, ok_or}
use eidetica.Crdt.Value.{Doc}
use eidetica.Crdt.Doc.{new}
use eidetica.Crdt.Merge.{merge_doc}
use eidetica.Entry.{Entry}
use eidetica.Entry.Order.{IdOrder}
use eidetica.Transaction.{Step, get_local_data, get_full_state, update_subtree}
use eidetica.Transaction.Error.{serde_failed}
use eidetica.Transaction.Monad.{lift, ◌>>=◌}
use eidetica.Transaction.State.{Crdt, StateCache}

pub record DocJson : Type 0 where
  pub to_json : Doc → Option String
  pub from_json : String → Option Doc
  pub from_to_json : (d : Doc) (s : String) → to_json d ≡ some s → from_json s ≡ some d
  pub json_has_text : (d : Doc) (s : String) → to_json d ≡ some s → str_eq s "" ≡ false

-- `CRDT for Doc`
abbrev pub doc_crdt : DocJson → Crdt Doc
doc_crdt json = record {
  default_state = new;
  merge = λ a b. ok (merge_doc a b);
  to_json = json.to_json;
  from_json = json.from_json;
  from_to_json = json.from_to_json;
  json_has_text = json.json_has_text;
}

-- A row may be of a type that serde_json cannot write.
pub record RowJson (R : Type 0) : Type 0 where
  pub to_text : R → Option String
  pub from_text : String → Option R

abbrev pub doc_or_new : Option Doc → Doc
doc_or_new none = new
doc_or_new (some d) = d

-- A store is its name, with the transaction as the state of each call: what is staged for it, the
-- state below the transaction, and staging a document.
module _ (id_of : Entry → String) (order : IdOrder) (from_bytes : String → String)
    (states : StateCache) (tree : String) (json : DocJson) (name : String) where
  abbrev pub Call : Type 0 → Type 0
  Call A = Step id_of order from_bytes states tree A

  unfoldable pub local_data : Call (Option Doc)
  unfolding get_local_data
  local_data = get_local_data id_of order from_bytes states tree (doc_crdt json) name

  unfoldable pub full_state : Call Doc
  unfolding get_full_state
  full_state = get_full_state id_of order from_bytes states tree (doc_crdt json) name

  unfoldable pub write : Doc → Call (Unit {0})
  unfolding update_subtree
  write d = lift (ok_or serde_failed (json.to_json d)) >>= λ bytes.
      update_subtree id_of order from_bytes states tree name bytes

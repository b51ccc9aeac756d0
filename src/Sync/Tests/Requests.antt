-- ===== src/Sync/Tests/Requests.antt =====
-- The theorem on requests, where the registry has their table.
use eidetica.Base.{
  String, Option, none, some, ◌==◌, if◌then◌else◌, str_eq, cons-nil_lem, Option-cases, ◌≡◌, refl,
  subst, inl, inr, false,
}
use Prim.Native.Char.{code}
use eidetica.Base.Outcome.{Outcome, ok, err}
use eidetica.Auth.Permission.{read}
use eidetica.Crdt.Value.{Doc}
use eidetica.Crdt.Doc as CrdtDoc
use eidetica.Crdt.Path.{contains_dot, is_dot}
use eidetica.Crdt.Container.{insert, lookup}
use eidetica.Crdt.Merge.{merge_doc, merge_entries}
use eidetica.Entry.{is_root, subtrees_of}
use eidetica.Entry.Order.Texts.{text_order}
use eidetica.Backend.Storage.{is_tip}
use eidetica.Transaction.{Work}
use eidetica.Transaction.Error.{TxnError, type_mismatch}
use eidetica.Store.Codec.{DocJson, RowJson, local_data}
use eidetica.Store.Open.{get_store}
use eidetica.Store.Tests.{latest, find_state, json, to_json}
use eidetica.Store.Tests.Opening.{listing, write_listed, indexed_with}
use eidetica.Store.Tests.Rows.{id_of, cid, outcome_of, state_of}
use eidetica.Store.Tests.Tables.{strategies}
use eidetica.Sync.BootstrapRequests.{
  BootstrapRequest, RequestStatus, pending, approved, rejected, open_requests, store_request,
}
use eidetica.Sync.BootstrapRequests.Laws.{Found, Decided, store_request-update_status}

abbrev asked : BootstrapRequest
asked = record {
  tree_id = "T";
  requesting_pubkey = record { encoded = "AAAA" };
  requesting_key_name = "laptop";
  requested_permission = read;
  timestamp = "now";
  status = pending;
  peer_address = record { transport_type = "http"; address = "host" };
  metadata = none;
}

abbrev status_text : RequestStatus → Option String
status_text pending = some "P"
status_text (approved a t) = some "A"
status_text (rejected a t) = none

abbrev requests : RowJson BootstrapRequest
requests = record {
  to_text = λ r. status_text r.status;
  from_text = λ t.
      if str_eq t "P"
      then some asked
      else some (record asked { status = approved "admin" "later" });
}

-- a JSON for the registry's document and for a table's
abbrev either_text : Option String → Option String → Option String
either_text (some i) o = some (String.◌∷◌ "i" i)
either_text none (some r) = some (String.◌∷◌ "r" r)
either_text none none = none

abbrev read_either : String → Option Doc
read_either String.[] = none
read_either (String.◌∷◌ c s) = if code c == 105 then listing.from_json s else json.from_json s

abbrev ReadBack : Doc → String → Type 0
ReadBack d s = (read_either s ≡ some d) × (str_eq s "" ≡ false)

read_either-either_text :
    (d : Doc) (s : String)
    → either_text (listing.to_json d) (json.to_json d) ≡ some s
    → ReadBack d s
read_either-either_text d s h = elim (Option-cases (listing.to_json d)) [
  | inr (i, e) ↦
      let same : String.◌∷◌ "i" i ≡ s = cc (rw e at h) in
      subst (ReadBack d) same (listing.from_to_json d i e, rw (cons-nil_lem "i" i) refl)
  | inl e ↦ elim (Option-cases (json.to_json d)) [
    | inr (r, f) ↦
        let same : String.◌∷◌ "r" r ≡ s = cc (rw (e, f) at h) in
        subst (ReadBack d) same (json.from_to_json d r f, rw (cons-nil_lem "r" r) refl)
    | inl f ↦ absurd (cc (rw (e, f) at h))
  ]
]

abbrev both : DocJson
both = record {
  to_json = λ d. either_text (listing.to_json d) (json.to_json d);
  from_json = read_either;
  from_to_json = λ d s h. (read_either-either_text d s h).0;
  json_has_text = λ d s h. (read_either-either_text d s h).1;
}

ended_state :
    {A : Type 0} (o : Option (Outcome TxnError A × Work latest)) (m : Outcome TxnError A)
    → outcome_of o ≡ some m
    → o ≡ some (m, state_of o)
ended_state none m h = absurd (cc)
ended_state (some (a, u)) m h = cc (h)

abbrev before : Work latest
before = indexed_with "ittable:v0"

abbrev opening : Option (Outcome TxnError (Unit {0}) × Work latest)
opening = open_requests id_of text_order cid latest "R" strategies both requests before

opens_requests : outcome_of opening ≡ some (ok tt)
unfolding get_store to_json write_listed is_tip is_root subtrees_of find_state merge_doc
    merge_entries contains_dot is_dot lookup insert
opens_requests = refl

-- a table that the registry has as a document store is not opened, and nothing is stored
refuses_other :
    outcome_of (
      store_request id_of text_order cid latest "R" strategies both requests "k" asked
        (indexed_with "itdocstore:v0"))
    ≡ some (err (type_mismatch "bootstrap_requests" "table:v0" "docstore:v0"))
unfolding store_request to_json write_listed is_tip is_root subtrees_of find_state merge_doc
    merge_entries contains_dot is_dot lookup insert
refuses_other = refl

store_request-update_status_example :
    (v : Work latest) × (store_request id_of text_order cid latest "R" strategies both requests "k"
        asked before
      ≡ some (ok "k", v))
    × Found id_of text_order cid latest "R" strategies both requests "k" asked v
    × Decided id_of text_order cid latest "R" strategies both requests "k"
        (approved "admin" "later")
        asked
        v
unfolding CrdtDoc.set contains_dot is_dot insert to_json write_listed local_data
store_request-update_status_example =
    store_request-update_status id_of text_order cid latest "R" strategies both requests "k" "P" "A"
      "rtP" "rtA" asked (approved "admin" "later") none before (state_of opening)
      (ended_state opening (ok tt) opens_requests) refl refl refl refl (refl, refl) (refl, refl)

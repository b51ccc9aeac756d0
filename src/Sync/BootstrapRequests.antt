-- ===== src/Sync/BootstrapRequests.antt =====
-- `BootstrapRequestManager` of crates/lib/src/sync/bootstrap_request_manager.rs: the requests for
-- access to a tree that wait for an approval, in a table of the sync database.
pub mod Laws
use eidetica.Base.{String, List, Bool, true, false, Option, none, some, str_eq}
use eidetica.Base.Outcome.{Outcome, ok, err}
use eidetica.Auth.Permission.{Permission}
use eidetica.Auth.Key.{PublicKey}
use eidetica.Crdt.Value.{Doc}
use eidetica.Crdt.Doc.{new}
use eidetica.Entry.{Entry}
use eidetica.Entry.Order.{IdOrder}
use eidetica.Transaction.{Work, Step}
use eidetica.Transaction.Error.{TxnError, key_not_found}
use eidetica.Transaction.Monad.{◌>>=◌, ◌>>◌}
use eidetica.Transaction.State.{StateCache}
use eidetica.Store.Codec.{DocJson, RowJson}
use eidetica.Store.Open.{Kind, get_store}
use eidetica.Store.Registry.{StrategyJson}
use eidetica.Store.Table as Table

abbrev pub bootstrap_requests : String
bootstrap_requests = "bootstrap_requests"

pub record Address : Type 0 where
  pub transport_type : String
  pub address : String

-- who decided, and when
pub data RequestStatus : Type 0 where
  pending : RequestStatus
  approved rejected : String → String → RequestStatus

pub record BootstrapRequest : Type 0 where
  pub tree_id : String
  pub requesting_pubkey : PublicKey
  pub requesting_key_name : String
  pub requested_permission : Permission
  pub timestamp : String
  pub status : RequestStatus
  pub peer_address : Address
  pub metadata : Option Doc

-- `discriminant(a) == discriminant(b)`
abbrev pub same_kind : RequestStatus → RequestStatus → Bool
same_kind pending pending = true
same_kind (approved a s) (approved b t) = true
same_kind (rejected a s) (rejected b t) = true
same_kind _ _ = false

-- `Registered` for a table
abbrev pub table_kind : Kind
table_kind = record {
  type_id = "table:v0";
  supports_type_id = λ t. str_eq t "table:v0";
  default_config = new;
}

module _ (id_of : Entry → String) (order : IdOrder) (from_bytes : String → String)
    (states : StateCache) (tree : String) (strategies : StrategyJson) (json : DocJson)
    (rows : RowJson BootstrapRequest) where
  abbrev Call : Type 0 → Type 0
  Call A = Step id_of order from_bytes states tree A

  -- each operation opens the table again
  abbrev pub open_requests : Call (Unit {0})
  open_requests =
      get_store id_of order from_bytes states tree strategies json table_kind bootstrap_requests

  -- the calls of the table once it is open
  abbrev insert_row : String → BootstrapRequest → Call String
  insert_row uuid request =
      Table.insert rows id_of order from_bytes states tree json bootstrap_requests uuid request

  abbrev pub get_row : String → Call BootstrapRequest
  get_row id = Table.get rows id_of order from_bytes states tree json bootstrap_requests id

  abbrev set_row : String → BootstrapRequest → Call (Unit {0})
  set_row id request =
      Table.set rows id_of order from_bytes states tree json bootstrap_requests id request

  -- A key that is not found is no request; other errors are passed on.
  abbrev pub found_request :
      Option (Outcome TxnError BootstrapRequest × Work states)
      → Option (Outcome TxnError (Option BootstrapRequest) × Work states)
  found_request none = none
  found_request (some (ok r, w)) = some (ok (some r), w)
  found_request (some (err (key_not_found n k), w)) = some (ok none, w)
  found_request (some (err e, w)) = some (err e, w)

  unfoldable pub store_request : String → BootstrapRequest → Call String
  unfolding get_store Table.insert
  store_request uuid request = open_requests >> insert_row uuid request

  unfoldable pub get_request : String → Call (Option BootstrapRequest)
  unfolding get_store Table.get
  get_request id = open_requests >> λ w. found_request (get_row id w)

  unfoldable pub filter_requests : RequestStatus → Call (List (String × BootstrapRequest))
  unfolding get_store Table.search
  filter_requests status =
      open_requests
      >> Table.search rows id_of order from_bytes states tree json bootstrap_requests
          (λ request. same_kind status request.status)

  unfoldable pub pending_requests : Call (List (String × BootstrapRequest))
  unfolding filter_requests
  pending_requests = filter_requests pending

  unfoldable pub approved_requests : Call (List (String × BootstrapRequest))
  unfolding filter_requests
  approved_requests = filter_requests (approved "" "")

  unfoldable pub rejected_requests : Call (List (String × BootstrapRequest))
  unfolding filter_requests
  rejected_requests = filter_requests (rejected "" "")

  unfoldable pub update_status : String → RequestStatus → Call (Unit {0})
  unfolding get_store Table.get Table.set
  update_status id status =
      open_requests >> (get_row id >>= λ request. set_row id (record request { status = status }))

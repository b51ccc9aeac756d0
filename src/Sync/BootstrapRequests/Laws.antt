-- ===== src/Sync/BootstrapRequests/Laws.antt =====
-- About the decisions on requests: crates/lib/src/sync/bootstrap_request_manager.rs.
use eidetica.Base.{String, true, Option, some, ◌≡◌, refl, inl, inr, subst, ◌∙◌}
use eidetica.Base.Outcome.{Outcome, ok, err, ◌>>=◌, Outcome-cases}
use eidetica.Crdt.Value.{Doc, text}
use eidetica.Crdt.Doc as CrdtDoc
use eidetica.Crdt.Doc.Laws.{addressable, get_raw-set}
use eidetica.Entry.{Entry}
use eidetica.Entry.Order.{IdOrder}
use eidetica.Transaction.{Work}
use eidetica.Transaction.Error.{TxnError}
use eidetica.Transaction.State.{StateCache}
use eidetica.Store.Codec.{DocJson, RowJson, local_data, doc_or_new}
use eidetica.Store.Open.Kept.{get_store-local_data}
use eidetica.Store.Registry.{StrategyJson}
use eidetica.Store.Table.Laws.{get-of_text, set-Written, insert-Written}
use eidetica.Sync.BootstrapRequests.{
  RequestStatus, BootstrapRequest, bootstrap_requests, table_kind, open_requests, get_row,
  get_request, store_request, update_status,
}

-- what a call answers that succeeds if the table could be opened
abbrev pub if_open {ℓ} : {A : Type ℓ} → Outcome TxnError (Unit {0}) → A → Outcome TxnError A
if_open m a = m >>= λ _. ok a

-- the request once an update has opened the table, or could not
abbrev pub updated_if :
    Outcome TxnError (Unit {0}) → BootstrapRequest → BootstrapRequest → BootstrapRequest
updated_if (ok u) new old = new
updated_if (err e) new old = old

module _ (id_of : Entry → String) (order : IdOrder) (from_bytes : String → String)
    (states : StateCache) (tree : String) (strategies : StrategyJson) (json : DocJson)
    (rows : RowJson BootstrapRequest) where
  abbrev staged_here : Work states → Option (Outcome TxnError (Option Doc) × Work states)
  staged_here w = local_data id_of order from_bytes states tree json bootstrap_requests w

  abbrev open_table : Work states → Option (Outcome TxnError (Unit {0}) × Work states)
  open_table w = open_requests id_of order from_bytes states tree strategies json rows w

  abbrev find_request :
      String → Work states → Option (Outcome TxnError (Option BootstrapRequest) × Work states)
  find_request uuid w = get_request id_of order from_bytes states tree strategies json rows uuid w

  abbrev change_status :
      String → RequestStatus → Work states → Option (Outcome TxnError (Unit {0}) × Work states)
  change_status uuid status w =
      update_status id_of order from_bytes states tree strategies json rows uuid status w

  abbrev ask :
      String → BootstrapRequest → Work states → Option (Outcome TxnError String × Work states)
  ask uuid request w =
      store_request id_of order from_bytes states tree strategies json rows uuid request w

  abbrev with_row : String → String → Option Doc → Doc
  with_row uuid t l = (CrdtDoc.set uuid (text t) (doc_or_new l)).1

  -- a lookup that opens the table, and finds the request if that succeeds
  abbrev pub Found : String → BootstrapRequest → Work states → Type 0
  Found uuid r w =
      (m : Outcome TxnError (Unit {0})) × (u : Work states) × (open_table w ≡ some (m, u))
      × (find_request uuid w ≡ some (if_open m (some r), u))

  -- an update that answers as the opening of the table, and a request after it that has the new
  -- status, or is as it was if the table could not be opened
  abbrev pub Decided : String → RequestStatus → BootstrapRequest → Work states → Type 0
  Decided uuid status r w =
      (m : Outcome TxnError (Unit {0})) × (u x : Work states) × (open_table w ≡ some (m, u))
      × (change_status uuid status w ≡ some (m, x))
      × Found uuid (updated_if m (record r { status = status }) r) x

  open_table-staged :
      (l : Option Doc) (w : Work states)
      → staged_here w ≡ some (ok l, w)
      → (m : Outcome TxnError (Unit {0})) × (u : Work states) × (open_table w ≡ some (m, u))
        × (staged_here u ≡ some (ok l, u))
  open_table-staged l w read =
      get_store-local_data id_of order from_bytes states tree strategies json table_kind
        bootstrap_requests bootstrap_requests l w refl read

  row-get_row :
      (uuid t : String) (r : BootstrapRequest) (l : Option Doc) (w : Work states)
      → staged_here w ≡ some (ok (some (with_row uuid t l)), w)
      → addressable uuid ≡ true
      → rows.from_text t ≡ some r
      → get_row id_of order from_bytes states tree strategies json rows uuid w ≡ some (ok r, w)
  row-get_row uuid t r l w read place parsed =
      get-of_text rows id_of order from_bytes states tree json bootstrap_requests uuid t r
        (with_row uuid t l) w read (get_raw-set uuid (text t) (doc_or_new l) ∙ rw place refl) parsed

  row-Found :
      (uuid t : String) (r : BootstrapRequest) (l : Option Doc) (w : Work states)
      → staged_here w ≡ some (ok (some (with_row uuid t l)), w)
      → addressable uuid ≡ true
      → rows.from_text t ≡ some r
      → Found uuid r w
  unfolding get_request
  row-Found uuid t r l w read place parsed =
      let (m, u, opened, kept) = open_table-staged (some (with_row uuid t l)) w read in
      elim (Outcome-cases m) [
        | inl (a, e) ↦
            (m, u, opened, rw (opened, e, row-get_row uuid t r l u kept place parsed) refl)
        | inr (x, e) ↦ (m, u, opened, rw (opened, e) refl)
      ]

  update_status-Found :
      (uuid t s later : String) (request : BootstrapRequest) (status : RequestStatus)
      (l : Option Doc) (w : Work states)
      → staged_here w ≡ some (ok (some (with_row uuid t l)), w)
      → json.to_json (with_row uuid s (some (with_row uuid t l))) ≡ some later
      → addressable uuid ≡ true
      → rows.from_text t ≡ some request
      → rows.to_text (record request { status = status }) ≡ some s
      → rows.from_text s ≡ some (record request { status = status })
      → Decided uuid status request w
  unfolding update_status
  update_status-Found uuid t s later request status l w read two place parsed text_of again =
      let (m, u, opened, kept) = open_table-staged (some (with_row uuid t l)) w read in
      let found = row-get_row uuid t request l u kept place parsed in
      elim (Outcome-cases m) [
        | inl (a, e) ↦
            let (x, wrote, (got, more)) =
              set-Written rows id_of order from_bytes states tree json bootstrap_requests uuid s
                later (record request { status = status }) (some (with_row uuid t l)) u kept two
                place text_of again in
            (
              m,
              u,
              x,
              opened,
              rw (opened, e, found, wrote) refl,
              rw e (
                  row-Found uuid s (record request { status = status }) (some (with_row uuid t l)) x
                    more place again),
            )
        | inr (y, e) ↦ (
          m,
          u,
          u,
          opened,
          rw (opened, e) refl,
          rw e (row-Found uuid t request l u kept place parsed),
        )
      ]

  -- If the table can be opened, then storing a request under a key that names a place answers with
  -- the key. A lookup of the key after that opens the table again, and answers with the request, or
  -- with the error of opening the table if that fails. An update of the request's status opens the
  -- table as well, and answers as that opening does. A lookup after the update, again unless the
  -- table cannot be opened, answers with the new status and with all else as it was stored, or with
  -- the request as it was stored if the update failed. All these calls end. The conditions are that
  -- what was staged for the table before could be read, that the table can be written with the request
  -- before and after the update, and that both requests can be written and read back.
  pub store_request-update_status :
      (uuid t s bytes later : String) (request : BootstrapRequest) (status : RequestStatus)
      (l : Option Doc) (w u : Work states)
      → open_table w ≡ some (ok tt, u)
      → staged_here w ≡ some (ok l, w)
      → json.to_json (with_row uuid t l) ≡ some bytes
      → json.to_json (with_row uuid s (some (with_row uuid t l))) ≡ some later
      → addressable uuid ≡ true
      → (rows.to_text request ≡ some t) × (rows.from_text t ≡ some request)
      → (rows.to_text (record request { status = status }) ≡ some s)
        × (rows.from_text s ≡ some (record request { status = status }))
      → (v : Work states) × (ask uuid request w ≡ some (ok uuid, v))
        × Found uuid request v
        × Decided uuid status request v
  unfolding store_request
  store_request-update_status uuid t s bytes later request status l w u opens h one two place first
        second =
      let (m, x, opened, kept) = open_table-staged l w h in
      let same : x ≡ u = cc (opens, opened) in
      let (v, stored, (read, more)) =
        insert-Written rows id_of order from_bytes states tree json bootstrap_requests uuid t bytes
          request l u (subst (λ y. staged_here y ≡ some (ok l, y)) same kept) one place first.0
          first.1 in
      (
        v,
        rw (opens, stored) refl,
        row-Found uuid t request l v more place first.1,
        update_status-Found uuid t s later request status l v more two place first.1 second.0
            second.1,
      )

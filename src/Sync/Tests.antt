-- ===== src/Sync/Tests.antt =====
-- The theorems on the queue and on the settings.
mod Requests
use eidetica.Base.{
  ◌+◌, String, List, [], ◌∷◌, ◌++◌, true, false, Option, none, some, if◌then◌else◌, str_eq, length,
  ◌≡◌, refl,
}
use eidetica.Base.Outcome.{ok}
use eidetica.Auth.Permission.{read}
use eidetica.Crdt.Doc as CrdtDoc
use eidetica.Crdt.Path.{contains_dot, is_dot}
use eidetica.Crdt.Container.{insert}
use eidetica.Entry.Order.Texts.{text_order}
use eidetica.Transaction.{Work}
use eidetica.Store.Codec.{RowJson, local_data}
use eidetica.Store.Tests.{latest, json, to_json}
use eidetica.Store.Tests.Rows.{id_of, cid, work}
use eidetica.Sync.Queue.{Queued, waiting, drain, enqueue_all, len, sent_to, drain-enqueue_all}
use eidetica.Sync.SettingsMerge.{
  SyncSettings, disabled, merge_sync_settings, Combined, merge_sync_settings-Combined,
}
use eidetica.Sync.BootstrapRequests.{
  BootstrapRequest, RequestStatus, pending, approved, rejected, store_request, get_request,
  update_status,
}
use eidetica.Sync.BootstrapRequests.Laws.{store_request-update_status}

abbrev calls : List (String × Queued)
calls = ("p", ("a", "R")) ∷ (("q", ("a", "R")) ∷ (("p", ("b", "R")) ∷ []))

drain-enqueue_all_example :
    (waiting "p" (drain (enqueue_all calls [])).0 ≡ waiting "p" [] ++ sent_to "p" calls)
    × (len (enqueue_all calls []) ≡ len [] + length calls)
drain-enqueue_all_example = drain-enqueue_all calls [] "p"

abbrev eager : SyncSettings
eager = record {
  sync_enabled = true;
  sync_on_commit = false;
  interval_seconds = some 60;
  properties = [];
}

merge_sync_settings-Combined_example :
    Combined disabled (eager ∷ []) (merge_sync_settings (disabled ∷ (eager ∷ [])))
merge_sync_settings-Combined_example = merge_sync_settings-Combined disabled (eager ∷ [])

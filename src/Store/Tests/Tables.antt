-- ===== src/Store/Tests/Tables.antt =====
-- The theorems on staging, on rows, and on the registry.
use eidetica.Base.{String, true, some, if◌then◌else◌, str_eq, ◌≡◌, refl}
use eidetica.Base.Outcome.{ok, err, ok_or}
use eidetica.Crdt.Value.{to_value}
use eidetica.Crdt.Doc.{new}
use eidetica.Crdt.Merge.{merge_doc, merge_entries, merge_value}
use eidetica.Crdt.Path.{contains_dot, is_dot}
use eidetica.Crdt.Container.{lookup, insert}
use eidetica.Entry.{is_root, subtrees_of}
use eidetica.Entry.Order.Texts.{text_order}
use eidetica.Backend.Storage.{is_tip}
use eidetica.Height.{HeightStrategy, incremental, timestamp}
use eidetica.Transaction.{Work, update_subtree, get_local_data}
use eidetica.Transaction.Error.{deserialization_failed, key_not_found}
use eidetica.Transaction.Staging.{local_in, map_some, get_local_data-update_subtree}
use eidetica.Store.Codec.{RowJson, doc_crdt}
use eidetica.Store.Table.{get, delete}
use eidetica.Store.Table.Laws.{delete-get_none}
use eidetica.Store.Registry.{StrategyJson, RegistryEntry, no_settings, read_entry, settings_doc}
use eidetica.Store.Registry.Laws.{read_entry-settings_doc, cleared-merge_value}
use eidetica.Store.Tests.{latest, json, find_state, from_json, to_json}
use eidetica.Store.Tests.Rows.{id_of, cid, work, builder, state_of}

get_local_data-update_subtree_example :
    (v : Work latest) × (update_subtree id_of text_order cid latest "R" "notes" "tY" work
      ≡ some (ok tt, v))
    × (get_local_data id_of text_order cid latest "R" (doc_crdt json) "notes" work
        ≡ some (local_in id_of text_order cid latest "R" (doc_crdt json) "notes" builder, work))
    × (get_local_data id_of text_order cid latest "R" (doc_crdt json) "notes" v
        ≡ some (
          if str_eq "notes" "notes"
              then ok_or (deserialization_failed "notes") (map_some (from_json "tY"))
              else local_in id_of text_order cid latest "R" (doc_crdt json) "notes" builder,
          v,
        ))
get_local_data-update_subtree_example =
    get_local_data-update_subtree id_of text_order cid latest "R" (doc_crdt json) "notes" "tY"
      "notes" builder work refl refl

abbrev texts : RowJson String
texts = record { to_text = λ r. some r; from_text = λ t. some t }

abbrev deleted_row : Work latest
deleted_row = state_of (delete texts id_of text_order cid latest "R" json "notes" "k" work)

deletes_row :
    delete texts id_of text_order cid latest "R" json "notes" "k" work ≡ some (ok true, deleted_row)
unfolding delete is_tip is_root subtrees_of find_state from_json to_json merge_doc merge_entries
    contains_dot is_dot lookup insert
deletes_row = refl

delete-get_none_example :
    get texts id_of text_order cid latest "R" json "notes" "k" deleted_row
    ≡ some (err (key_not_found "notes" "k"), deleted_row)
unfolding contains_dot is_dot
delete-get_none_example =
    delete-get_none texts id_of text_order cid latest "R" json "notes" "k" work deleted_row refl
      deletes_row

abbrev pub strategy_name : HeightStrategy → String
strategy_name incremental = "i"
strategy_name timestamp = "t"

pub strategy_law :
    (h : HeightStrategy)
    → (if str_eq (strategy_name h) "i" then some incremental else some timestamp) ≡ some h
strategy_law incremental = refl
strategy_law timestamp = refl

abbrev pub strategies : StrategyJson
strategies = record {
  strategy_text = strategy_name;
  read_strategy = λ s. if str_eq s "i" then some incremental else some timestamp;
  read_strategy-text = strategy_law;
}

abbrev table_entry : RegistryEntry
table_entry = record { type_id = "table:v0"; config = new; settings = no_settings }

read_entry-settings_doc_example :
    read_entry strategies (
      to_value (
        settings_doc strategies
          (record { type_id = "table:v0"; config = new; settings = no_settings })
          (record { height_strategy = some timestamp })))
    ≡ ok (record {
      type_id = "table:v0";
      config = new;
      settings = record { height_strategy = some timestamp };
    })
read_entry-settings_doc_example =
    read_entry-settings_doc strategies "table:v0" new no_settings (some timestamp)

cleared-merge_value_example :
    (r : RegistryEntry) × (read_entry strategies (
        merge_value
          (to_value
            (settings_doc strategies table_entry (record { height_strategy = some timestamp })))
          (to_value (settings_doc strategies table_entry no_settings)))
      ≡ ok r)
    × (r.settings.height_strategy ≡ some timestamp)
cleared-merge_value_example = cleared-merge_value strategies table_entry table_entry timestamp

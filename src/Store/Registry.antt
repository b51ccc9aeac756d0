-- ===== src/Store/Registry.antt =====
-- `Registry` of crates/lib/src/store/registry.rs: what the subtree `_index` says of each store.
pub mod Laws
use eidetica.Base.{
  ◌≡◌, String, List, [], ◌∷◌, Bool, true, false, Option, none, some, if◌then◌else◌, str_eq, keep,
  map,
}
use eidetica.Base.Outcome.{Outcome, ok, err, ok_or}
use eidetica.Crdt.Key.{by_name}
use eidetica.Crdt.Value.{
  Value, text, doc, deleted, Entries, end, entry, Doc, as_text, as_doc, to_value, is_deleted,
}
use eidetica.Crdt.Doc as CrdtDoc
use eidetica.Crdt.Doc.{new}
use eidetica.Entry.{Entry}
use eidetica.Entry.Order.{IdOrder}
use eidetica.Height.{HeightStrategy}
use eidetica.Transaction.{Work, Step, index, init_subtree_parents}
use eidetica.Transaction.Error.{TxnError, key_not_found, deserialization_failed}
use eidetica.Transaction.Monad.{pure, lift, ◌>>=◌, ◌>>◌}
use eidetica.Transaction.State.{StateCache}
use eidetica.Store.Codec.{DocJson, full_state}
use eidetica.Store.DocStore as DocStore

-- `HeightStrategy` through serde_json
pub record StrategyJson : Type 0 where
  pub strategy_text : HeightStrategy → String
  pub read_strategy : String → Option HeightStrategy
  pub read_strategy-text : (h : HeightStrategy) → read_strategy (strategy_text h) ≡ some h

pub record SubtreeSettings : Type 0 where
  pub height_strategy : Option HeightStrategy

pub record RegistryEntry : Type 0 where
  pub type_id : String
  pub config : Doc
  pub settings : SubtreeSettings

abbrev pub no_settings : SubtreeSettings
no_settings = record { height_strategy = none }

abbrev pub broken {ℓ} : {A : Type ℓ} → Outcome TxnError A
broken = err (deserialization_failed index)

abbrev pub text_at : Option Value → Option String
text_at none = none
text_at (some v) = as_text v

-- An old configuration is the text of an empty document.
abbrev pub config_of : Option Value → Outcome TxnError Doc
config_of (some (doc a m)) = ok (record { atomic = a; children = m })
config_of (some (text s)) = if str_eq s "{}" then ok new else broken
config_of _ = ok new

-- the keys of a document that are no tombstones
unfoldable pub live_keys : Entries by_name → List String
live_keys end = []
live_keys (entry k v rest) =
    let others = live_keys rest in if is_deleted v then others else k ∷ others

unfoldable pub set_in : String → Value → Doc → Doc
unfolding CrdtDoc.set
set_in key v d = (CrdtDoc.set key v d).1

module _ (strategies : StrategyJson) where
  abbrev pub strategy_of : Option String → Outcome TxnError SubtreeSettings
  strategy_of none = broken
  strategy_of (some t) = elim (strategies.read_strategy t) [
    | none ↦ broken
    | some h ↦ ok (record { height_strategy = some h })
  ]

  abbrev pub settings_in : Option Doc → Outcome TxnError SubtreeSettings
  settings_in none = broken
  settings_in (some d) = elim (CrdtDoc.get "height_strategy" d) [
    | none ↦ ok no_settings
    | some v ↦ strategy_of (as_text v)
  ]

  abbrev pub settings_of : Option Value → Outcome TxnError SubtreeSettings
  settings_of none = ok no_settings
  settings_of (some v) = settings_in (as_doc v)

  abbrev pub entry_of : Option Doc → Outcome TxnError RegistryEntry
  entry_of none = broken
  entry_of (some d) = elim (text_at (CrdtDoc.get "type" d)) [
    | none ↦ broken
    | some t ↦ elim (config_of (CrdtDoc.get "config" d)) [
      | err e ↦ err e
      | ok config ↦ elim (settings_of (CrdtDoc.get "settings" d)) [
        | err e ↦ err e
        | ok settings ↦ ok (record { type_id = t; config = config; settings = settings })
      ]
    ]
  ]

  -- `get_entry` from the value that is stored
  unfoldable pub read_entry : Value → Outcome TxnError RegistryEntry
  unfolding CrdtDoc.get
  read_entry v = entry_of (as_doc v)

  unfoldable pub strategy_doc : Option HeightStrategy → Doc
  unfolding set_in
  strategy_doc none = new
  strategy_doc (some h) = set_in "height_strategy" (text (strategies.strategy_text h)) new

  unfoldable pub with_settings : SubtreeSettings → Doc → Doc
  unfolding set_in strategy_doc
  with_settings settings d = elim (settings.height_strategy) [
    | none ↦ d
    | some h ↦ set_in "settings" (to_value (strategy_doc (some h))) d
  ]

  unfoldable pub entry_doc : String → Doc → Doc
  unfolding set_in
  entry_doc type_id config = set_in "config" (to_value config) (set_in "type" (text type_id) new)

  unfoldable pub settings_doc : RegistryEntry → SubtreeSettings → Doc
  unfolding entry_doc with_settings
  settings_doc e settings = with_settings settings (entry_doc e.type_id e.config)

  module _ (id_of : Entry → String) (order : IdOrder) (from_bytes : String → String)
      (states : StateCache) (tree : String) (json : DocJson) where
    abbrev Call : Type 0 → Type 0
    Call A = Step id_of order from_bytes states tree A

    -- `Registry::new`
    unfoldable pub new_registry : Call (Unit {0})
    unfolding init_subtree_parents
    new_registry = init_subtree_parents id_of order from_bytes states tree index

    unfoldable pub get_entry : String → Call RegistryEntry
    unfolding DocStore.get read_entry
    get_entry name =
        DocStore.get id_of order from_bytes states tree json index name >>= λ v. lift (read_entry v)

    abbrev pub is_ok :
        Option (Outcome TxnError RegistryEntry × Work states)
        → Option (Outcome TxnError Bool × Work states)
    is_ok none = none
    is_ok (some (ok e, w)) = some (ok true, w)
    is_ok (some (err e, w)) = some (ok false, w)

    unfoldable pub contains : String → Call Bool
    unfolding get_entry
    contains name w = is_ok (get_entry name w)

    unfoldable pub set_entry : String → String → Doc → Call (Unit {0})
    unfolding DocStore.set entry_doc
    set_entry name type_id config =
        DocStore.set id_of order from_bytes states tree json index name
          (to_value (entry_doc type_id config))

    unfoldable pub list : Call (List String)
    unfolding full_state live_keys
    list = full_state id_of order from_bytes states tree json index >>= λ d.
        pure (live_keys d.children)

    -- `is_not_found`
    abbrev pub or_no_settings :
        Option (Outcome TxnError RegistryEntry × Work states)
        → Option (Outcome TxnError SubtreeSettings × Work states)
    or_no_settings none = none
    or_no_settings (some (ok e, w)) = some (ok e.settings, w)
    or_no_settings (some (err (key_not_found n k), w)) = some (ok no_settings, w)
    or_no_settings (some (err e, w)) = some (err e, w)

    unfoldable pub get_subtree_settings : String → Call SubtreeSettings
    unfolding get_entry
    get_subtree_settings name w = or_no_settings (get_entry name w)

    unfoldable pub set_subtree_settings : String → SubtreeSettings → Call (Unit {0})
    unfolding get_entry settings_doc DocStore.set
    set_subtree_settings name settings = get_entry name >>= λ e.
        DocStore.set id_of order from_bytes states tree json index name
          (to_value (settings_doc e settings))

-- ===== src/Store/Registry/Laws.antt =====
-- About what is read of an entry that was written: crates/lib/src/store/registry.rs.
use eidetica.Base.{String, true, Option, none, some, ◌≡◌, refl, Bool-cases, inl, inr}
use eidetica.Base.Outcome.{ok}
use eidetica.Crdt.Value.{Doc, to_value}
use eidetica.Crdt.Doc as CrdtDoc
use eidetica.Crdt.Merge.{merge_value, merge_entries, upsert}
use eidetica.Crdt.Path.{contains_dot, is_dot}
use eidetica.Crdt.Container.{lookup, insert}
use eidetica.Height.{HeightStrategy}
use eidetica.Entry.{Entry}
use eidetica.Entry.Order.{IdOrder}
use eidetica.Transaction.{Work, index}
use eidetica.Transaction.State.{StateCache}
use eidetica.Crdt.Doc.Laws.{addressable}
use eidetica.Store.Codec.{DocJson, local_data, doc_or_new}
use eidetica.Store.DocStore.Laws.{set-get}
use eidetica.Store.Registry.{
  StrategyJson, SubtreeSettings, RegistryEntry, no_settings, with_settings, strategy_doc, set_in,
  read_entry, set_entry, get_entry, entry_doc, settings_doc,
}

module _ (strategies : StrategyJson) where
  read_entry-entry_doc :
      (t : String) (c : Doc)
      → read_entry strategies (to_value (entry_doc strategies t c))
        ≡ ok (record { type_id = t; config = c; settings = no_settings })
  unfolding read_entry entry_doc contains_dot is_dot lookup set_in insert CrdtDoc.get
  read_entry-entry_doc t c = refl

  -- The entry that `set_subtree_settings` writes is read with the type and the configuration that it
  -- had, and with the new settings.
  pub read_entry-settings_doc :
      (t : String) (c : Doc) (old : SubtreeSettings) (h : Option HeightStrategy)
      → read_entry strategies (
          to_value (
            settings_doc strategies
              (record { type_id = t; config = c; settings = old })
              (record { height_strategy = h })))
        ≡ ok (record { type_id = t; config = c; settings = record { height_strategy = h } })
  unfolding read_entry entry_doc settings_doc with_settings strategy_doc contains_dot is_dot lookup
      set_in insert CrdtDoc.get
  read_entry-settings_doc t c old none = refl
  read_entry-settings_doc t c old (some h) = rw (strategies.read_strategy-text h) refl

  -- When an entry with a height strategy is merged with a later one that was written to clear it,
  -- the result is read with the height strategy that the earlier entry had.
  pub cleared-merge_value :
      (e f : RegistryEntry) (h : HeightStrategy)
      → (r : RegistryEntry) × (read_entry strategies (
            merge_value
              (to_value (settings_doc strategies e (record { height_strategy = some h })))
              (to_value (settings_doc strategies f no_settings)))
          ≡ ok r)
        × (r.settings.height_strategy ≡ some h)
  unfolding read_entry entry_doc settings_doc with_settings strategy_doc contains_dot is_dot lookup
      set_in insert CrdtDoc.get merge_value upsert
  cleared-merge_value e f h = elim (Bool-cases f.config.atomic) [
    | inl y ↦ (
      record {
        type_id = f.type_id;
        config = f.config;
        settings = record { height_strategy = some h };
      },
      rw (y, strategies.read_strategy-text h) refl,
      refl,
    )
    | inr n ↦ (
      record {
        type_id = f.type_id;
        config = record {
          atomic = e.config.atomic;
          children = merge_entries e.config.children f.config.children;
        };
        settings = record { height_strategy = some h };
      },
      rw (n, strategies.read_strategy-text h) refl,
      refl,
    )
  ]

  -- After `set_entry`, under a name that names a place, `get_entry` answers in the same transaction
  -- with the type and the configuration that were set, and without settings. That `set_entry` succeeds
  -- needs only that what was staged before can be read, and what it stages be written.
  pub set_entry-get_entry :
      (id_of : Entry → String) (order : IdOrder) (from_bytes : String → String)
      (states : StateCache) (tree : String) (json : DocJson) (name t bytes : String) (c : Doc)
      (l : Option Doc) (w : Work states)
      → local_data id_of order from_bytes states tree json index w ≡ some (ok l, w)
      → json.to_json (CrdtDoc.set name (to_value (entry_doc strategies t c)) (doc_or_new l)).1
        ≡ some bytes
      → addressable name ≡ true
      → (u : Work states) × (set_entry strategies id_of order from_bytes states tree json name t c w
          ≡ some (ok tt, u))
        × (get_entry strategies id_of order from_bytes states tree json name u
            ≡ some (ok (record { type_id = t; config = c; settings = no_settings }), u))
  unfolding set_entry get_entry
  set_entry-get_entry id_of order from_bytes states tree json name t bytes c l w h text_of_doc
        place =
      let (u, written, read, kept) =
        set-get id_of order from_bytes states tree json index name bytes
          (to_value (entry_doc strategies t c)) l w h text_of_doc place refl in
      (u, written, rw (read, read_entry-entry_doc t c) refl)

-- ===== src/Store/Open/Laws.antt =====
-- The registry entry of a store that was opened by `get_store` of
-- crates/lib/src/transaction/mod.rs.
use eidetica.Base.{
  String, Bool, true, false, Option, some, Bool-cases, ◌≡◌, inl, inr, subst, ap, ◌∙◌,
}
use eidetica.Base.Outcome.{Outcome, ok}
use eidetica.Crdt.Value.{Doc, to_value}
use eidetica.Crdt.Doc as CrdtDoc
use eidetica.Crdt.Doc.Laws.{addressable}
use eidetica.Entry.{Entry}
use eidetica.Entry.Order.{IdOrder}
use eidetica.Transaction.{Work, index, is_system_subtree, init_subtree_parents}
use eidetica.Transaction.Error.{TxnError}
use eidetica.Transaction.Monad.{go_on-ok}
use eidetica.Transaction.State.{StateCache}
use eidetica.Store.Codec.{DocJson, doc_or_new, local_data, write}
use eidetica.Store.Codec.Laws.{local_data-builder, write-text}
use eidetica.Store.DocStore as DocStore
use eidetica.Store.Registry.{StrategyJson, RegistryEntry, no_settings, entry_doc, set_entry}
use eidetica.Store.Registry.Laws.{set_entry-get_entry}
use eidetica.Store.Open.Ends.{get_store-Ends}
use eidetica.Store.Open.{
  Kind, entry_at, has_entry, open_index, register, check_type, open_or_register, open_listed,
  get_store,
}

module _ (id_of : Entry → String) (order : IdOrder) (from_bytes : String → String)
    (states : StateCache) (tree : String) (strategies : StrategyJson) (json : DocJson) where
  -- what the registry says of a store that was opened
  abbrev pub Opened : Kind → String → Work states → Type 0
  Opened kind name u =
      (v : Work states) × (e : RegistryEntry) × (entry_at id_of order from_bytes states tree
          strategies json name v
        ≡ some (ok e, u))
      × (kind.supports_type_id e.type_id ≡ true)

  abbrev staged_at : Work states → Option (Outcome TxnError (Option Doc) × Work states)
  staged_at w = local_data id_of order from_bytes states tree json index w

  abbrev with_entry : Kind → String → Option Doc → Doc
  with_entry kind name l =
      (CrdtDoc.set name (to_value (entry_doc strategies kind.type_id kind.default_config))
        (doc_or_new l)).1

  abbrev write_index : Doc → Work states → Option (Outcome TxnError (Unit {0}) × Work states)
  write_index d w = write id_of order from_bytes states tree json index d w

  set_entry-Opened :
      (kind : Kind) (name : String) (v u : Work states)
      → kind.supports_type_id kind.type_id ≡ true
      → addressable name ≡ true
      → set_entry strategies id_of order from_bytes states tree json name kind.type_id
          kind.default_config v
        ≡ some (ok tt, u)
      → Opened kind name u
  set_entry-Opened kind name v u own place h =
      let (l, v2, e2, h2) =
        go_on-ok (staged_at v) (λ l. write_index (with_entry kind name l)) tt u
          (unfold set_entry in unfold DocStore.set in h) in
      let (b, built, same) =
        local_data-builder id_of order from_bytes states tree json index v v2 l e2 in
      let (bytes, wrote) =
        write-text id_of order from_bytes states tree json index (with_entry kind name l) v2 u h2 in
      let (u2, written, read) =
        set_entry-get_entry strategies id_of order from_bytes states tree json name kind.type_id
          bytes kind.default_config l v (e2 ∙ ap (λ x. some (ok l, x)) same) wrote place in
      let u2-u : u2 ≡ u = cc (written, h) in
      (
        u,
        record { type_id = kind.type_id; config = kind.default_config; settings = no_settings },
        subst
            (λ x.
              entry_at id_of order from_bytes states tree strategies json name x
              ≡ some (
                ok (record {
                  type_id = kind.type_id;
                  config = kind.default_config;
                  settings = no_settings;
                }),
                x,
              ))
            u2-u read,
        own,
      )

  checked-Opened :
      (kind : Kind) (name : String) (e : RegistryEntry) (v u : Work states)
      → check_type id_of order from_bytes states tree strategies json kind name e v
        ≡ some (ok tt, u)
      → (v ≡ u) × (kind.supports_type_id e.type_id ≡ true)
  checked-Opened kind name e v u h = elim (Bool-cases (kind.supports_type_id e.type_id)) [
    | inl y ↦ (cc (rw y at h), y)
    | inr n ↦ absurd (cc (rw n at h))
  ]

  abbrev open_it :
      Kind → String → Bool → Work states → Option (Outcome TxnError (Unit {0}) × Work states)
  open_it kind name known v =
      open_or_register id_of order from_bytes states tree strategies json kind name known v

  either-Opened :
      (kind : Kind) (name : String) (known : Bool) (v u : Work states)
      → kind.supports_type_id kind.type_id ≡ true
      → addressable name ≡ true
      → open_it kind name known v ≡ some (ok tt, u)
      → Opened kind name u
  either-Opened kind name true v u own place h =
      let (e, v2, read, rest) =
        go_on-ok (entry_at id_of order from_bytes states tree strategies json name v)
          (check_type id_of order from_bytes states tree strategies json kind name) tt u h in
      let (same, fits) = checked-Opened kind name e v2 u rest in
      (v, e, read ∙ ap (λ x. some (ok e, x)) same, fits)
  either-Opened kind name false v u own place h =
      let (a, v2, e2, rest) =
        go_on-ok (open_index id_of order from_bytes states tree strategies json v)
          (λ _.
            set_entry strategies id_of order from_bytes states tree json name kind.type_id
              kind.default_config)
          tt u (unfold register in h) in
      set_entry-Opened kind name v2 u own place rest

  listed-Opened :
      (kind : Kind) (name : String) (v u : Work states)
      → kind.supports_type_id kind.type_id ≡ true
      → addressable name ≡ true
      → open_listed id_of order from_bytes states tree strategies json kind name v ≡ some (ok tt, u)
      → Opened kind name u
  listed-Opened kind name v u own place h =
      let (a, v1, e1, rest) =
        go_on-ok (open_index id_of order from_bytes states tree strategies json v) _ tt u h in
      let (known, v2, e2, opened) =
        go_on-ok (has_entry id_of order from_bytes states tree strategies json name v1) _ tt u
          rest in
      either-Opened kind name known v2 u own place opened

  success-Opened :
      (kind : Kind) (name : String) (w u : Work states)
      → kind.supports_type_id kind.type_id ≡ true
      → addressable name ≡ true
      → is_system_subtree name ≡ false
      → get_store id_of order from_bytes states tree strategies json kind name w ≡ some (ok tt, u)
      → Opened kind name u
  unfolding get_store
  success-Opened kind name w u own place plain h =
      let (a, v, e, rest) =
        go_on-ok (init_subtree_parents id_of order from_bytes states tree name w) _ tt u
          (rw plain at h) in
      listed-Opened kind name v u own place rest

  -- Opening a store that is not a system subtree, under a name that names a place in a document, as
  -- a kind that supports its own type, ends. If it succeeds, then at some point the registry answered
  -- with an entry of the store whose type the kind supports, and left the transaction as the call
  -- leaves it.
  pub get_store-Opened :
      (kind : Kind) (name : String) (w : Work states)
      → kind.supports_type_id kind.type_id ≡ true
      → addressable name ≡ true
      → is_system_subtree name ≡ false
      → (m : Outcome TxnError (Unit {0})) × (u : Work states) × (get_store id_of order from_bytes
            states tree strategies json kind name w
          ≡ some (m, u))
        × (m ≡ ok tt → Opened kind name u)
  get_store-Opened kind name w own place plain =
      let (m, u, ends, kept) =
        get_store-Ends id_of order from_bytes states tree strategies json (λ b. Unit {0})
          (λ n tips b i. tt) (λ bytes b i. tt) kind name w tt in
      (
        m,
        u,
        ends,
        λ good. success-Opened kind name w u own place plain (ends ∙ ap (λ x. some (x, u)) good),
      )

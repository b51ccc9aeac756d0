-- ===== src/Store/Open.antt =====
-- Opening a store by its type: `get_store` of crates/lib/src/transaction/mod.rs, with `register` of
-- crates/lib/src/store/mod.rs.
pub mod Ends
pub mod Kept
pub mod Laws
use eidetica.Base.{String, Bool, true, false, ◌&&◌, some, if◌then◌else◌, ◌≡◌}
use eidetica.Base.Outcome.{Outcome, ok, err}
use eidetica.Crdt.Value.{Doc}
use eidetica.Entry.{Entry}
use eidetica.Entry.Order.{IdOrder}
use eidetica.Transaction.{Work, Step, is_system_subtree, init_subtree_parents}
use eidetica.Transaction.Error.{TxnError, system_subtree_locked, type_mismatch}
use eidetica.Transaction.Monad.{Act, pure, lift, ◌>>=◌, ◌>>◌}
use eidetica.Transaction.State.{StateCache}
use eidetica.Store.Codec.{DocJson}
use eidetica.Store.Registry.{
  StrategyJson, RegistryEntry, new_registry, get_entry, contains, set_entry,
}

-- The traits `Registered` and `Store`, for stores whose `load` only makes the handle, as those of
-- `DocStore` and `Table`.
pub record Kind : Type 0 where
  pub type_id : String
  pub supports_type_id : String → Bool
  pub default_config : Doc

module _ (id_of : Entry → String) (order : IdOrder) (from_bytes : String → String)
    (states : StateCache) (tree : String) (strategies : StrategyJson) (json : DocJson) where
  abbrev Call : Type 0 → Type 0
  Call A = Step id_of order from_bytes states tree A

  abbrev pub entry_at : String → Call RegistryEntry
  entry_at name = get_entry strategies id_of order from_bytes states tree json name

  abbrev pub has_entry : String → Call Bool
  has_entry name = contains strategies id_of order from_bytes states tree json name

  abbrev pub open_index : Call (Unit {0})
  open_index = new_registry strategies id_of order from_bytes states tree json

  -- `set_config`, which opens the registry again
  unfoldable pub register : Kind → String → Call (Unit {0})
  unfolding new_registry set_entry
  register kind name =
      open_index
      >> set_entry strategies id_of order from_bytes states tree json name kind.type_id
          kind.default_config

  abbrev pub check_type : Kind → String → RegistryEntry → Call (Unit {0})
  check_type kind name e =
      if kind.supports_type_id e.type_id
      then pure tt
      else lift (err (type_mismatch name kind.type_id e.type_id))

  -- a store that has an entry in the registry, and one that has none
  abbrev pub open_or_register : Kind → String → Bool → Call (Unit {0})
  open_or_register kind name true = entry_at name >>= λ e. check_type kind name e
  open_or_register kind name false = register kind name

  abbrev pub open_listed : Kind → String → Call (Unit {0})
  open_listed kind name =
      open_index >> (has_entry name >>= λ known. open_or_register kind name known)

  -- The handle is the name.
  unfoldable pub get_store : Kind → String → Call (Unit {0})
  unfolding is_system_subtree init_subtree_parents new_registry contains get_entry register
  get_store kind name w =
      if is_system_subtree name && w.txn.system_subtrees_locked
      then some (err (system_subtree_locked name), w)
      else (init_subtree_parents id_of order from_bytes states tree name
            >> (if is_system_subtree name then pure tt else open_listed kind name))
          w

-- ===== src/Store/Open/Ends.antt =====
-- Opening a store by `get_store` of crates/lib/src/transaction/mod.rs ends, and what it keeps.
use eidetica.Base.{
  String, List, Bool, true, false, ◌&&◌, Option, none, some, if◌then◌else◌, ◌≡◌, refl, subst,
}
use eidetica.Base.Outcome.{Outcome, ok, err}
use eidetica.Crdt.Value.{Value}
use eidetica.Entry.{Entry}
use eidetica.Entry.Order.{IdOrder}
use eidetica.Entry.Builder.{EntryBuilder, set_subtree_parents, set_subtree_data}
use eidetica.Transaction.{Work, index, is_system_subtree}
use eidetica.Transaction.Ends.{
  KeptBy, Ends, bind-Ends, if-Ends, lift-Ends, init_subtree_parents-Ends, update_subtree-Ends,
  get_local_data-Ends, get_full_state-Ends,
}
use eidetica.Transaction.Error.{TxnError, system_subtree_locked}
use eidetica.Transaction.Monad.{Act}
use eidetica.Transaction.State.{StateCache}
use eidetica.Store.Codec.{DocJson, doc_crdt, local_data, full_state, write}
use eidetica.Store.DocStore as DocStore
use eidetica.Store.Registry.{
  StrategyJson, RegistryEntry, is_ok, new_registry, get_entry, contains, set_entry,
}
use eidetica.Store.Open.{
  Kind, entry_at, has_entry, open_index, register, open_or_register, open_listed, get_store,
}

module _ (id_of : Entry → String) (order : IdOrder) (from_bytes : String → String)
    (states : StateCache) (tree : String) (strategies : StrategyJson) (json : DocJson) where
  -- a property of the builder that writing the parents of a subtree and the registry's data keeps
  module _ (J : Option EntryBuilder → Type 0)
      (parents-J : (name : String) (tips : List String) (b : EntryBuilder)
        → J (some b)
        → J (some (set_subtree_parents name tips b)))
      (index-J : (bytes : String) (b : EntryBuilder)
        → J (some b)
        → J (some (set_subtree_data index bytes b))) where
    abbrev Holds : Work states → Type 0
    Holds w = J w.txn.entry_builder

    abbrev Keeps {ℓ} : {A : Type ℓ} → Act (Work states) A → Type ℓ
    Keeps m = Ends Holds m

    get_stored-Ends :
        (name key : String)
        → Keeps (DocStore.get_stored id_of order from_bytes states tree json name key)
    unfolding DocStore.get_stored full_state
    get_stored-Ends name key =
        bind-Ends
          (get_full_state-Ends id_of order from_bytes states tree J parents-J (doc_crdt json) name)
          (λ d. lift-Ends _)

    get-Ends :
        (name key : String) → Keeps (DocStore.get id_of order from_bytes states tree json name key)
    unfolding DocStore.get local_data
    get-Ends name key =
        bind-Ends
          (get_local_data-Ends id_of order from_bytes states tree J parents-J (doc_crdt json) name)
          (λ l. either (DocStore.staged_value name key (DocStore.value_in key l)))
      where
        either :
            (o : Option (Outcome TxnError Value))
            → Keeps (
                DocStore.staged_or id_of order from_bytes states tree json name o
                  (DocStore.get_stored id_of order from_bytes states tree json name key))
        either none = get_stored-Ends name key
        either (some m) = lift-Ends m

    entry_at-Ends :
        (name : String) → Keeps (entry_at id_of order from_bytes states tree strategies json name)
    unfolding get_entry
    entry_at-Ends name = bind-Ends (get-Ends index name) (λ v. lift-Ends _)

    has_entry-Ends :
        (name : String) → Keeps (has_entry id_of order from_bytes states tree strategies json name)
    unfolding contains
    has_entry-Ends name w i = told _ (entry_at-Ends name w i)
      where
        told :
            (o : Option (Outcome TxnError RegistryEntry × Work states))
            → KeptBy Holds o
            → KeptBy Holds (is_ok strategies id_of order from_bytes states tree json o)
        told none (m, u, e, i) = absurd (cc)
        told (some (ok e, w)) (m, u, q, i) =
            let same : u ≡ w = cc (q) in (_, _, refl, subst Holds same i)
        told (some (err e, w)) (m, u, q, i) =
            let same : u ≡ w = cc (q) in (_, _, refl, subst Holds same i)

    open_index-Ends : Keeps (open_index id_of order from_bytes states tree strategies json)
    unfolding new_registry
    open_index-Ends = init_subtree_parents-Ends id_of order from_bytes states tree J parents-J index

    register-Ends :
        (kind : Kind) (name : String)
        → Keeps (register id_of order from_bytes states tree strategies json kind name)
    unfolding register set_entry DocStore.set local_data write
    register-Ends kind name = bind-Ends open_index-Ends (λ u.
        bind-Ends
          (get_local_data-Ends id_of order from_bytes states tree J parents-J (doc_crdt json) index)
          (λ l. bind-Ends (lift-Ends _) (λ bytes.
            update_subtree-Ends id_of order from_bytes states tree J parents-J index bytes
              (index-J bytes))))

    listed-Ends :
        (kind : Kind) (name : String)
        → Keeps (open_listed id_of order from_bytes states tree strategies json kind name)
    listed-Ends kind name =
        bind-Ends open_index-Ends (λ u. bind-Ends (has_entry-Ends name) (λ known. either known))
      where
        either :
            (known : Bool)
            → Keeps (
                open_or_register id_of order from_bytes states tree strategies json kind name known)
        either true =
            bind-Ends (entry_at-Ends name)
              (λ e. if-Ends (kind.supports_type_id e.type_id) (lift-Ends (ok tt)) (lift-Ends _))
        either false = register-Ends kind name

    -- Opening a store ends, and the property still holds of the builder.
    pub get_store-Ends :
        (kind : Kind) (name : String)
        → Keeps (get_store id_of order from_bytes states tree strategies json kind name)
    unfolding get_store
    get_store-Ends kind name w i = either (is_system_subtree name && w.txn.system_subtrees_locked) (
        bind-Ends (init_subtree_parents-Ends id_of order from_bytes states tree J parents-J name)
          (λ u. if-Ends (is_system_subtree name) (lift-Ends (ok tt)) (listed-Ends kind name)) w i)
      where
        either :
            (b : Bool) {r : Option (Outcome TxnError (Unit {0}) × Work states)}
            → KeptBy Holds r
            → KeptBy Holds (if b then some (err (system_subtree_locked name), w) else r)
        either true h = (_, _, refl, i)
        either false h = h

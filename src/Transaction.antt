-- ===== src/Transaction.antt =====
-- Transactions, what they stage and what they read: crates/lib/src/transaction/mod.rs, with the
-- in-memory backend of crates/lib/src/backend/database/in_memory/mod.rs below them.
pub mod Error
pub mod Monad
pub mod State
pub mod Staging
pub mod Ends
use eidetica.Base.{
  String, List, [], ◌∷◌, Bool, true, false, not, ◌&&◌, ◌||◌, Option, none, some, if◌then◌else◌,
  str_eq,
}
use eidetica.Base.Outcome.{Outcome, ok, err, ok_or}
use eidetica.Auth.Key.{SigInfo}
use eidetica.Entry.{Entry, EntryError, settings, root_marker, is_empty_list}
use eidetica.Entry.Order.{IdOrder}
use eidetica.Entry.Builder.{
  EntryBuilder, canonical, new, subtrees, data_in, parents_in_subtree, set_parents, set_root,
  set_subtree_data, set_subtree_parents,
}
use eidetica.Backend.Assoc.{change}
use eidetica.Backend.Error.{Ran, entry_not_found}
use eidetica.Backend.Storage.{InMemoryInner, is_in, get_entry, in_tree, parents_in}
use eidetica.Backend.Traversal.Snapshot.{snapshot, store_snapshot, store_snapshot_at, same_ids}
use eidetica.Transaction.Error.{
  TxnError, already_committed, empty_tips_not_allowed, invalid_tip, backend_failed, from_backend,
  deserialization_failed, Tried,
}
use eidetica.Transaction.Monad.{Act, pure, lift, ◌>>=◌, ◌>>◌}
use eidetica.Transaction.State.{Crdt, Encryptor, StateCache, compute_subtree_state_merge_based}

-- The builder is taken when the transaction is committed. The database's handle is the tree's id with
-- the backend.
pub record Transaction : Type 0 where
  pub entry_builder : Option EntryBuilder
  pub encryptors : List (String × Encryptor)
  pub system_subtrees_locked : Bool

-- `constants::INDEX`
abbrev pub index : String
index = "_index"

-- What a transaction works on: itself, the entries of the backend, and the cache of states.
pub record Work (states : StateCache) : Type 0 where
  pub txn : Transaction
  pub inner : InMemoryInner
  pub cache : states.Cache

unfoldable pub is_system_subtree : String → Bool
is_system_subtree name = str_eq name index || (str_eq name settings || str_eq name root_marker)

-- the parents of a subtree that the transaction did not have
abbrev pub with_parents : String → Option (List String) → EntryBuilder → EntryBuilder
with_parents name none b = b
with_parents name (some tips) b = set_subtree_parents name tips b

module _ (id_of : Entry → String) (order : IdOrder) (from_bytes : String → String)
    (states : StateCache) (tree : String) where
  -- `Snapshot::new`
  abbrev pub snapshot_of : List String → List String
  snapshot_of ids = canonical order.compare_ids ids

  -- the loop over the tips of a new transaction
  unfoldable pub check_new_tips : List Entry → List String → Outcome TxnError (Unit {0})
  unfolding get_entry in_tree
  check_new_tips es [] = ok tt
  check_new_tips es (id ∷ ids) = elim (get_entry id_of id es) [
    | none ↦ err (backend_failed (entry_not_found id))
    | some e ↦
        let rest = check_new_tips es ids in
        if in_tree id_of tree e then rest else err (invalid_tip id)
  ]

  abbrev pub started : SigInfo → List String → Transaction
  started unsigned tips = record {
    entry_builder =
        some
          (if is_empty_list tips then new unsigned tree else set_parents tips (new unsigned tree));
    encryptors = [];
    system_subtrees_locked = false;
  }

  abbrev pub start_if : Outcome TxnError (Unit {0}) → Transaction → Outcome TxnError Transaction
  start_if (ok _) t = ok t
  start_if (err e) t = err e

  abbrev pub is_there : Option Entry → Bool
  is_there none = false
  is_there (some e) = true

  -- `unsigned` is the signature that `SigInfo::default` makes.
  unfoldable pub new_at : SigInfo → List String → InMemoryInner → Outcome TxnError Transaction
  unfolding get_entry check_new_tips new set_parents
  new_at unsigned tips s =
      if is_empty_list tips && is_there (get_entry id_of tree s.entries)
      then err empty_tips_not_allowed
      else start_if (check_new_tips s.entries tips) (started unsigned tips)

  abbrev pub Step : Type 0 → Type 0
  Step A = Act (Work states) A

  -- `as_ref` or `as_mut` of the builder, which `commit` leaves none of
  unfoldable pub staged : Step EntryBuilder
  staged w = some (ok_or already_committed w.txn.entry_builder, w)

  unfoldable pub restage : (EntryBuilder → EntryBuilder) → Step (Unit {0})
  restage f w = elim (w.txn.entry_builder) [
    | none ↦ some (err already_committed, w)
    | some b ↦ some (ok tt, record w { txn = record w.txn { entry_builder = some (f b) } })
  ]

  -- what the backend answers with, and its tips caches after that
  abbrev pub on_inner : (InMemoryInner → List String × InMemoryInner) → Step (List String)
  on_inner f w = let (ids, s) = f w.inner in some (ok (snapshot_of ids), record w { inner = s })

  abbrev pub read_snapshot : Step (List String)
  read_snapshot w = on_inner (snapshot id_of tree) w

  abbrev pub read_store_snapshot : String → Step (List String)
  read_store_snapshot name w = on_inner (store_snapshot id_of tree name) w

  abbrev pub with_inner :
      Work states
      → Tried (List String)
      → InMemoryInner
      → Option (Outcome TxnError (List String) × Work states)
  with_inner w none s = none
  with_inner w (some (err e)) s = some (err e, record w { inner = s })
  with_inner w (some (ok ids)) s = some (ok (snapshot_of ids), record w { inner = s })

  unfoldable pub get_subtree_tips : String → List String → Step (List String)
  unfolding store_snapshot_at
  get_subtree_tips name main_parents w =
      let (tips, s) = store_snapshot_at id_of order tree name (snapshot_of main_parents) w.inner in
      with_inner w (from_backend tips) s

  unfoldable pub register_encryptor : String → Encryptor → Step (Unit {0})
  unfolding change
  register_encryptor name e w = some (
    ok tt,
    record w { txn = record w.txn { encryptors = change name e (λ old. e) w.txn.encryptors } },
  )

  -- The guard is set, and unset when it is dropped.
  unfoldable pub lock_system_subtrees : Bool → Work states → Work states
  lock_system_subtrees locked w = record w {
    txn = record w.txn { system_subtrees_locked = locked };
  }

  unfoldable pub set_entry_root : String → Step (Unit {0})
  unfolding restage set_root
  set_entry_root root = restage (set_root root)

  abbrev pub tips_if_new : String → EntryBuilder → Step (Option (List String))
  tips_if_new name b =
      if is_in name (subtrees b)
      then pure none
      else (read_store_snapshot name >>= λ tips. pure (some tips))

  unfoldable pub update_subtree : String → String → Step (Unit {0})
  unfolding staged restage subtrees store_snapshot set_subtree_data set_subtree_parents
  update_subtree name bytes = do
    b ← staged
    tips ← tips_if_new name b
    restage (λ now. with_parents name tips (set_subtree_data name bytes now))

  unfoldable pub init_subtree_parents : String → Step (Unit {0})
  unfolding staged restage subtrees get_subtree_tips set_subtree_parents
  init_subtree_parents name = do
    b ← staged
    (if is_in name (subtrees b)
        then pure tt
        else (get_subtree_tips name (b.tree).parents >>= λ tips.
            restage (set_subtree_parents name tips)))

  module _ {T : Type 0} (crdt : Crdt T) where
    abbrev pub read_local : String → Outcome EntryError String → Outcome TxnError (Option T)
    read_local name (err e) = ok none
    read_local name (ok bytes) = if str_eq bytes "" then ok none else elim (crdt.from_json bytes) [
      | none ↦ err (deserialization_failed name)
      | some t ↦ ok (some t)
    ]

    unfoldable pub get_local_data : String → Step (Option T)
    unfolding staged data_in
    get_local_data name = do b ← staged; lift (read_local name (data_in name b))

    -- the tips of a store for a transaction that did not read it yet
    unfoldable pub full_state_tips : String → List String → Step (List String)
    unfolding snapshot store_snapshot get_subtree_tips
    full_state_tips name main_parents = do
      current ← read_snapshot
      (if same_ids (snapshot_of main_parents) current
          then read_store_snapshot name
          else get_subtree_tips name main_parents)

    unfoldable pub init_if_needed : String → EntryBuilder → Step (Unit {0})
    unfolding subtrees full_state_tips restage set_subtree_parents
    init_if_needed name b =
        if is_in name (subtrees b)
        then pure tt
        else (full_state_tips name (b.tree).parents >>= λ tips.
            restage (set_subtree_parents name tips))

    abbrev pub state_at : String → List String → Step T
    state_at name tips w =
        elim (compute_subtree_state_merge_based id_of order from_bytes states crdt w.txn.encryptors
          tree name w.inner tips w.cache) [
            | none ↦ none
            | some (m, c) ↦ some (m, record w { cache = c })
          ]

    -- A store without parents has the default state; that of some tips is computed.
    unfoldable pub get_full_state : String → Step T
    unfolding staged init_if_needed parents_in_subtree compute_subtree_state_merge_based
    get_full_state name = do
      b ← staged
      init_if_needed name b
      now ← staged
      (let parents = parents_in (parents_in_subtree name now) in
          if is_empty_list parents then pure crdt.default_state else state_at name parents)

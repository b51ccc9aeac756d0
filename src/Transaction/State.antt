-- ===== src/Transaction/State.antt =====
-- The state of a store at some tips, merged from the entries below them and kept in the cache of
-- CRDT states: `compute_subtree_state_merge_based`, `compute_single_entry_state_recursive` and
-- `merge_path_entries` of crates/lib/src/transaction/mod.rs.
pub mod Plain
pub mod Ends
pub mod Cached
pub mod InMemory
use Prim.Native.String.{◌++◌ as str_append}
use eidetica.Base.{String, List, [], ◌∷◌, Option, none, some, str_eq, false, ◌≡◌, ◌⊎◌}
use eidetica.Base.Outcome.{Outcome, ok, err, ok_or, map_err, ◌>>=◌}
use eidetica.Base.Sort.{sort_by}
use eidetica.Entry.{Entry, EntryError, data_of}
use eidetica.Entry.Order.{IdOrder}
use eidetica.Backend.Assoc.{find}
use eidetica.Backend.Error.{entry_not_found}
use eidetica.Backend.Storage.{InMemoryInner, get_entry}
use eidetica.Backend.Storage.Read.{store_at}
use eidetica.Backend.Traversal.MergeBase.{find_merge_base}
use eidetica.Backend.Traversal.Paths.{get_path_from_to}
use eidetica.Transaction.Error.{TxnError, serde_failed, backend_failed, Tried, from_backend, ◌>>!◌}

-- The traits `CRDT` and `Data` of crates/lib/src/crdt/traits.rs, where serde_json reads back what it
-- could write, which is never empty.
pub record Crdt (T : Type 0) : Type 0 where
  pub default_state : T
  pub merge : T → T → Outcome TxnError T
  pub to_json : T → Option String
  pub from_json : String → Option T
  pub from_to_json : (t : T) (s : String) → to_json t ≡ some s → from_json s ≡ some t
  pub json_has_text : (t : T) (s : String) → to_json t ≡ some s → str_eq s "" ≡ false

-- The trait `Encryptor`. What is random in a ciphertext is left out.
pub record Encryptor : Type 0 where
  pub decrypt : String → Outcome TxnError String
  pub encrypt : String → Outcome TxnError String

-- The cache of states by id and store, as the transaction uses it: what is found was put there, under
-- the same id and store, or was found before. It may forget.
pub record StateCache : Type 1 where
  pub Cache : Type 0
  pub get_cached : String → String → Cache → Option String × Cache
  pub cache_state : String → String → String → Cache → Cache
  pub get_kept :
      (i n j m : String) (c : Cache) (b : String)
      → (get_cached j m (get_cached i n c).1).0 ≡ some b
      → (get_cached j m c).0 ≡ some b
  pub put_kept :
      (i n j m : String) (c : Cache) (w b : String)
      → (get_cached j m (cache_state i n w c)).0 ≡ some b
      → ((j ≡ i) × (m ≡ n) × (b ≡ w)) ⊎ ((get_cached j m c).0 ≡ some b)

-- the text whose CID is the cache's id of some tips
abbrev pub merge_text : List String → String
merge_text [] = ""
merge_text (id ∷ ids) = str_append (str_append ":" id) (merge_text ids)

abbrev pub run_encryptor :
    String
    → (Encryptor → String → Outcome TxnError String)
    → Option Encryptor
    → Outcome TxnError String
run_encryptor bytes use_it none = ok bytes
run_encryptor bytes use_it (some e) = use_it e bytes

unfoldable pub decrypt_if_needed :
    List (String × Encryptor) → String → String → Outcome TxnError String
unfolding find
decrypt_if_needed encryptors name bytes =
    run_encryptor bytes Encryptor.decrypt (find name encryptors)

unfoldable pub encrypt_if_needed :
    List (String × Encryptor) → String → String → Outcome TxnError String
unfolding find
encrypt_if_needed encryptors name bytes =
    run_encryptor bytes Encryptor.encrypt (find name encryptors)

module _ {T : Type 0} (crdt : Crdt T) (encryptors : List (String × Encryptor)) (name : String) where
  open crdt use {default_state, merge, to_json, from_json}

  unfoldable pub decode : String → Outcome TxnError T
  unfolding decrypt_if_needed
  decode bytes = do
    plaintext ← decrypt_if_needed encryptors name bytes
    ok_or serde_failed (from_json plaintext)

  abbrev pub local_or_default : Outcome EntryError String → Outcome TxnError T
  local_or_default (ok bytes) = decode bytes
  local_or_default (err e) = ok default_state

  -- one entry's part of the state
  unfoldable pub merge_entry : T → Entry → Outcome TxnError T
  unfolding decode data_of
  merge_entry state e = do local ← local_or_default (data_of name e); merge state local

  unfoldable pub merge_all : T → List Entry → Outcome TxnError T
  unfolding merge_entry
  merge_all state [] = ok state
  merge_all state (e ∷ es) = merge_entry state e >>= λ next. merge_all next es

  module _ (id_of : Entry → String) where
    unfoldable pub merge_path_entries : List Entry → T → List String → Outcome TxnError T
    unfolding merge_entry get_entry
    merge_path_entries es state [] = ok state
    merge_path_entries es state (id ∷ ids) =
        ok_or (backend_failed (entry_not_found id)) (get_entry id_of id es) >>= λ e.
        merge_entry state e >>= λ next. merge_path_entries es next ids

module _ (id_of : Entry → String) (order : IdOrder) (from_bytes : String → String)
    (states : StateCache) where
  open states use {Cache, get_cached, cache_state}

  -- `from_bytes` is the CID of a text.
  unfoldable pub create_merge_cache_id : List String → String
  create_merge_cache_id ids =
      from_bytes (str_append "merge" (merge_text (sort_by order.compare_ids ids)))

  module _ {T : Type 0} (crdt : Crdt T) (encryptors : List (String × Encryptor))
      (tree name : String) (s : InMemoryInner) where
    open crdt use {default_state, to_json}

    abbrev pub Cached : Type 0
    Cached = Option (Outcome TxnError T × Cache)

    -- `to_vec`, and `encrypt_if_needed`
    unfoldable pub seal : T → Outcome TxnError String
    unfolding encrypt_if_needed
    seal t = ok_or serde_failed (to_json t) >>= λ text. encrypt_if_needed encryptors name text

    -- What is computed is cached. `None` is a loop that did not end.
    abbrev pub keep_sealed : String → T → Cache → Outcome TxnError String → Cached
    keep_sealed id t c (ok bytes) = some (ok t, cache_state id name bytes c)
    keep_sealed id t c (err e) = some (err e, c)

    abbrev pub remember : String → Cache → Tried T → Cached
    remember id c none = none
    remember id c (some (err e)) = some (err e, c)
    remember id c (some (ok t)) = keep_sealed id t c (seal t)

    abbrev pub found_or : Option String → Cache → Cached → Cached
    found_or none c computed = computed
    found_or (some bytes) c computed = some (decode crdt encryptors name bytes, c)

    -- the state at one entry, from the entries of the store that it reaches
    unfoldable pub state_of_entry : String → Tried T
    unfolding store_at merge_all
    state_of_entry id = from_backend (store_at id_of order tree name (id ∷ []) s) >>! λ es.
        some (merge_all crdt encryptors name default_state es)

    unfoldable pub compute_single_entry_state : String → Cache → Cached
    unfolding decode seal state_of_entry
    compute_single_entry_state id c =
        let (found, after) = get_cached id name c in
        found_or found after (remember id after (state_of_entry id))

    -- the further entries, on the ways from the merge base to the tips
    unfoldable pub merge_from : List String → String → T → Tried T
    unfolding get_path_from_to merge_path_entries
    merge_from ids base t =
        from_backend (get_path_from_to id_of order tree name base ids s) >>! λ path.
        some (merge_path_entries crdt encryptors name id_of s.entries t path)

    abbrev pub merge_on : String → List String → String → Cached → Cached
    merge_on cache_id ids base none = none
    merge_on cache_id ids base (some (err e, c)) = some (err e, c)
    merge_on cache_id ids base (some (ok t, c)) = remember cache_id c (merge_from ids base t)

    abbrev pub merge_at : String → List String → Cache → Tried String → Cached
    merge_at cache_id ids c none = none
    merge_at cache_id ids c (some (err e)) = some (err e, c)
    merge_at cache_id ids c (some (ok base)) =
        merge_on cache_id ids base (compute_single_entry_state base c)

    unfoldable pub compute_subtree_state_merge_based : List String → Cache → Cached
    unfolding compute_single_entry_state create_merge_cache_id find_merge_base merge_from decode
        encrypt_if_needed
    compute_subtree_state_merge_based [] c = some (ok default_state, c)
    compute_subtree_state_merge_based (id ∷ []) c = compute_single_entry_state id c
    compute_subtree_state_merge_based (id ∷ (next ∷ ids)) c =
        let tips = id ∷ (next ∷ ids) in
        let cache_id = create_merge_cache_id tips in
        let (found, after) = get_cached cache_id name c in
        found_or found after
          (merge_at cache_id tips after (from_backend (find_merge_base id_of tree name tips s)))

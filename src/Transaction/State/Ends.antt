-- ===== src/Transaction/State/Ends.antt =====
-- The merging of states of crates/lib/src/transaction/mod.rs ends: none of the loops below it runs out
-- of fuel.
use eidetica.Base.{String, List, [], ◌∷◌, Option, none, some, ◌≡◌, refl}
use eidetica.Base.Outcome.{Outcome, ok, err}
use eidetica.Entry.{Entry}
use eidetica.Entry.Order.{IdOrder}
use eidetica.Backend.Error.{ReadError, Ran}
use eidetica.Backend.Storage.{InMemoryInner}
use eidetica.Transaction.Error.{TxnError, Tried, from_backend}
use eidetica.Transaction.State.{
  Crdt, Encryptor, StateCache, Cached, remember, keep_sealed, found_or, merge_on, merge_at,
  compute_single_entry_state, compute_subtree_state_merge_based,
}
use eidetica.Transaction.State.Plain.{merge_base, entry-ends, further-ends}

abbrev pub Ended {ℓ} : {S : Type 0} {A : Type ℓ} → Option (Outcome TxnError A × S) → Type ℓ
Ended {S} {A} o = (m : Outcome TxnError A) × (u : S) × (o ≡ some (m, u))

module _ (id_of : Entry → String) (order : IdOrder) (from_bytes : String → String)
    (states : StateCache) (tree : String) where
  module _ {T : Type 0} (crdt : Crdt T) (encryptors : List (String × Encryptor)) (name : String)
      (s : InMemoryInner) where
    open states use {Cache, get_cached}

    abbrev Answer : Type 0
    Answer = Cached id_of order from_bytes states crdt encryptors tree name s

    kept-Ended :
        (id : String) (t : T) (c : Cache) (m : Outcome TxnError String)
        → Ended (keep_sealed id_of order from_bytes states crdt encryptors tree name s id t c m)
    kept-Ended id t c (ok b) = (_, _, refl)
    kept-Ended id t c (err e) = (_, _, refl)

    remember-Ended :
        (id : String) (c : Cache) (o : Tried T) (m : Outcome TxnError T)
        → o ≡ some m
        → Ended (remember id_of order from_bytes states crdt encryptors tree name s id c o)
    remember-Ended id c none m h = absurd (cc)
    remember-Ended id c (some (err e)) m h = (_, _, refl)
    remember-Ended id c (some (ok t)) m h = kept-Ended id t c _

    found-Ended :
        (o : Option String) (c : Cache) (r : Answer)
        → Ended r
        → Ended (found_or id_of order from_bytes states crdt encryptors tree name s o c r)
    found-Ended none c r h = h
    found-Ended (some b) c r h = (_, _, refl)

    single-Ended :
        (id : String) (c : Cache)
        → Ended (
            compute_single_entry_state id_of order from_bytes states crdt encryptors tree name s id
              c)
    unfolding compute_single_entry_state
    single-Ended id c =
        let (m, e) = entry-ends id_of order from_bytes states crdt encryptors tree name s id in
        found-Ended _ _ _ (remember-Ended id (get_cached id name c).1 _ m e)

    on-Ended :
        (key : String) (tips : List String) (base : String) (r : Answer)
        → Ended r
        → Ended (merge_on id_of order from_bytes states crdt encryptors tree name s key tips base r)
    on-Ended key tips base none (m, u, e) = absurd (cc)
    on-Ended key tips base (some (err x, c)) h = (_, _, refl)
    on-Ended key tips base (some (ok t, c)) h =
        let (m, e) =
          further-ends id_of order from_bytes states crdt encryptors tree name s tips base t in
        remember-Ended key c _ m e

    at-Ended :
        (key : String) (tips : List String) (c : Cache) (o : Ran String)
        (m : Outcome ReadError String)
        → o ≡ some m
        → Ended (
            merge_at id_of order from_bytes states crdt encryptors tree name s key tips c
              (from_backend o))
    at-Ended key tips c none m e = absurd (cc)
    at-Ended key tips c (some (err x)) m e = (_, _, refl)
    at-Ended key tips c (some (ok base)) m e = on-Ended key tips base _ (single-Ended base c)

    pub compute-Ended :
        (ids : List String) (c : Cache)
        → Ended (
            compute_subtree_state_merge_based id_of order from_bytes states crdt encryptors tree
              name s ids c)
    unfolding compute_subtree_state_merge_based
    compute-Ended [] c = (_, _, refl)
    compute-Ended (id ∷ []) c = single-Ended id c
    compute-Ended (id ∷ (next ∷ ids)) c =
        let (m, e, anc) =
          merge_base id_of order from_bytes states crdt encryptors tree name s id next ids in
        found-Ended _ _ _ (at-Ended _ (id ∷ (next ∷ ids)) _ _ m e)

-- ===== src/Transaction/Ends.antt =====
-- The calls of crates/lib/src/transaction/mod.rs end: none of the loops below them runs out of fuel.
use eidetica.Base.{
  String, List, [], ◌∷◌, Bool, true, false, Option, none, some, if◌then◌else◌, Bool-cases, ◌≡◌, inl,
  inr, refl, subst,
}
use eidetica.Base.Outcome.{Outcome, ok, err, Outcome-cases}
use eidetica.Entry.{Entry, is_empty_list}
use eidetica.Entry.Order.{IdOrder}
use eidetica.Entry.Builder.{
  EntryBuilder, set_subtree_parents, set_subtree_data, parents_in_subtree, subtrees,
}
use eidetica.Backend.Error.{ReadError, Ran, ◌>>?◌}
use eidetica.Backend.Storage.{InMemoryInner, is_in, parents_in}
use eidetica.Backend.Storage.Read.{check_tips, get_tree_from_tips}
use eidetica.Backend.Storage.Read.Laws.{get_tree_from_tips-IsRead}
use eidetica.Backend.Traversal.Snapshot.{
  snapshot, store_snapshot, store_snapshot_at, same_ids, scope_tips,
}
use eidetica.Transaction.{
  Work, snapshot_of, with_parents, staged, restage, read_snapshot, read_store_snapshot, with_inner,
  get_subtree_tips, update_subtree, init_subtree_parents, get_local_data, full_state_tips,
  init_if_needed, state_at, get_full_state,
}
use eidetica.Transaction.Error.{TxnError, already_committed, from_backend}
use eidetica.Transaction.Monad.{Act, lift, go_on, ◌>>=◌}
use eidetica.Transaction.State.{Crdt, StateCache}
use eidetica.Transaction.State.Ends.{compute-Ended}

-- A call ends, and an invariant of what it works on holds after it if it held before.
abbrev pub KeptBy {ℓ} :
    {S : Type 0} {A : Type ℓ} → (S → Type 0) → Option (Outcome TxnError A × S) → Type ℓ
KeptBy {S} {A} I o = (m : Outcome TxnError A) × (u : S) × (o ≡ some (m, u)) × I u

abbrev pub Ends {ℓ} : {S : Type 0} {A : Type ℓ} → (S → Type 0) → Act S A → Type ℓ
Ends {S} I m = (w : S) → I w → KeptBy I (m w)

module _ {S : Type 0} {I : S → Type 0} where
  go_on-KeptBy {ℓ κ} :
      {A : Type ℓ} {B : Type κ} (o : Option (Outcome TxnError A × S)) (f : A → Act S B)
      → KeptBy I o
      → ((a : A) → Ends I (f a))
      → KeptBy I (go_on o f)
  go_on-KeptBy o f (ok a, u, e, i) h = let (m, v, q, j) = h a u i in (m, v, rw e q, j)
  go_on-KeptBy o f (err x, u, e, i) h = (err x, u, rw e refl, i)

  pub bind-Ends {ℓ κ} :
      {A : Type ℓ} {B : Type κ} {m : Act S A} {f : A → Act S B}
      → Ends I m
      → ((a : A) → Ends I (f a))
      → Ends I (m >>= f)
  bind-Ends {m = m} {f = f} h k w i = go_on-KeptBy (m w) f (h w i) k

  pub if-Ends {ℓ} :
      {A : Type ℓ} (b : Bool) {m n : Act S A} → Ends I m → Ends I n → Ends I (if b then m else n)
  if-Ends true h k = h
  if-Ends false h k = k

  pub lift-Ends {ℓ} : {A : Type ℓ} (m : Outcome TxnError A) → Ends I (lift m)
  lift-Ends m w i = (m, w, refl, i)

module _ (id_of : Entry → String) (order : IdOrder) (from_bytes : String → String)
    (states : StateCache) (tree : String) where
  tree_from_tips :
      (tips : List String) (s : InMemoryInner)
      → (m : Outcome ReadError (List Entry)) × (get_tree_from_tips id_of order tree tips s ≡ some m)
  unfolding get_tree_from_tips
  tree_from_tips [] s = (_, refl)
  tree_from_tips (id ∷ ids) s = elim (Outcome-cases (check_tips id_of tree s.entries (id ∷ ids))) [
    | inl (u, e) ↦
        let (es, read, is_read) = get_tree_from_tips-IsRead id_of order tree (id ∷ ids) s e in
        (ok es, read)
    | inr (x, e) ↦ (err x, rw e refl)
  ]

  scope-ends :
      (o : Ran (List Entry)) (m : Outcome ReadError (List Entry)) (f : List Entry → List String)
      → o ≡ some m
      → (r : Outcome ReadError (List String)) × ((o >>? λ es. some (ok (f es))) ≡ some r)
  scope-ends o (ok es) f e = (ok (f es), rw e refl)
  scope-ends o (err x) f e = (err x, rw e refl)

  store_snapshot_at-ends :
      (name : String) (ids : List String) (s : InMemoryInner)
      → (m : Outcome ReadError (List String)) × ((store_snapshot_at id_of order tree name ids s).0
          ≡ some m)
  unfolding store_snapshot_at
  store_snapshot_at-ends name [] s = (_, refl)
  store_snapshot_at-ends name (id ∷ ids) s =
      let t = (snapshot id_of tree s).1 in
      let (m, e) = tree_from_tips (id ∷ ids) t in
      elim (Bool-cases (same_ids (id ∷ ids) (snapshot id_of tree s).0)) [
        | inl y ↦ (ok (store_snapshot id_of tree name t).0, rw y refl)
        | inr n ↦ rw n (scope-ends _ m (scope_tips id_of name) e)
      ]

  -- a property of the builder that writing the parents of a subtree keeps
  module _ (J : Option EntryBuilder → Type 0)
      (parents-J : (name : String) (tips : List String) (b : EntryBuilder)
        → J (some b)
        → J (some (set_subtree_parents name tips b))) where
    abbrev Keeps {ℓ} : {A : Type ℓ} → Act (Work states) A → Type ℓ
    Keeps m = Ends (λ w. J w.txn.entry_builder) m

    staged-Ends : Keeps (staged id_of order from_bytes states tree)
    unfolding staged
    staged-Ends w i = (_, _, refl, i)

    restage-Ends :
        (f : EntryBuilder → EntryBuilder)
        → ((b : EntryBuilder) → J (some b) → J (some (f b)))
        → Keeps (restage id_of order from_bytes states tree f)
    unfolding restage
    restage-Ends f keep w i = restaged w.txn.entry_builder refl
      where
        restaged :
            (o : Option EntryBuilder)
            → w.txn.entry_builder ≡ o
            → KeptBy (λ w. J w.txn.entry_builder) (restage id_of order from_bytes states tree f w)
        restaged none e = (err already_committed, w, rw e refl, i)
        restaged (some b) e = (
          ok tt,
          record w { txn = record w.txn { entry_builder = some (f b) } },
          rw e refl,
          keep b (subst J e i),
        )

    get_subtree_tips-Ends :
        (name : String) (ids : List String)
        → Keeps (get_subtree_tips id_of order from_bytes states tree name ids)
    unfolding get_subtree_tips
    get_subtree_tips-Ends name ids w i =
        let at = snapshot_of id_of order from_bytes states tree ids in
        let (m, e) = store_snapshot_at-ends name at w.inner in answered _ m _ e
      where
        answered :
            (o : Ran (List String)) (m : Outcome ReadError (List String)) (s : InMemoryInner)
            → o ≡ some m
            → KeptBy
                (λ w. J w.txn.entry_builder)
                (with_inner id_of order from_bytes states tree w (from_backend o) s)
        answered none m s e = absurd (cc)
        answered (some (ok ids)) m s e = (_, _, refl, i)
        answered (some (err x)) m s e = (_, _, refl, i)

    pub init_subtree_parents-Ends :
        (name : String) → Keeps (init_subtree_parents id_of order from_bytes states tree name)
    unfolding init_subtree_parents
    init_subtree_parents-Ends name = bind-Ends staged-Ends (λ b.
        if-Ends (is_in name (subtrees b)) (lift-Ends (ok tt)) (
          bind-Ends (get_subtree_tips-Ends name (b.tree).parents)
            (λ tips. restage-Ends (set_subtree_parents name tips) (parents-J name tips))))

    read_snapshot-Ends : Keeps (read_snapshot id_of order from_bytes states tree)
    read_snapshot-Ends w i = (_, _, refl, i)

    read_store_snapshot-Ends :
        (name : String) → Keeps (read_store_snapshot id_of order from_bytes states tree name)
    read_store_snapshot-Ends name w i = (_, _, refl, i)

    with_parents-J :
        (name : String) (tips : Option (List String)) (b : EntryBuilder)
        → J (some b)
        → J (some (with_parents name tips b))
    with_parents-J name none b i = i
    with_parents-J name (some tips) b i = parents-J name tips b i

    pub update_subtree-Ends :
        (name bytes : String)
        → ((b : EntryBuilder) → J (some b) → J (some (set_subtree_data name bytes b)))
        → Keeps (update_subtree id_of order from_bytes states tree name bytes)
    unfolding update_subtree
    update_subtree-Ends name bytes keep = bind-Ends staged-Ends (λ b.
        bind-Ends
          (if-Ends (is_in name (subtrees b)) (lift-Ends (ok none))
            (bind-Ends (read_store_snapshot-Ends name) (λ tips. lift-Ends (ok (some tips)))))
          (λ tips.
            restage-Ends (λ now. with_parents name tips (set_subtree_data name bytes now))
              (λ b i. with_parents-J name tips _ (keep b i))))

    module _ {T : Type 0} (crdt : Crdt T) where
      pub get_local_data-Ends :
          (name : String) → Keeps (get_local_data id_of order from_bytes states tree crdt name)
      unfolding get_local_data
      get_local_data-Ends name = bind-Ends staged-Ends (λ b. lift-Ends _)

      full_state_tips-Ends :
          (name : String) (ids : List String)
          → Keeps (full_state_tips id_of order from_bytes states tree crdt name ids)
      unfolding full_state_tips
      full_state_tips-Ends name ids = bind-Ends read_snapshot-Ends (λ now.
          if-Ends (same_ids (snapshot_of id_of order from_bytes states tree ids) now)
            (read_store_snapshot-Ends name) (get_subtree_tips-Ends name ids))

      init_if_needed-Ends :
          (name : String) (b : EntryBuilder)
          → Keeps (init_if_needed id_of order from_bytes states tree crdt name b)
      unfolding init_if_needed
      init_if_needed-Ends name b = if-Ends (is_in name (subtrees b)) (lift-Ends (ok tt)) (
          bind-Ends (full_state_tips-Ends name (b.tree).parents)
            (λ tips. restage-Ends (set_subtree_parents name tips) (parents-J name tips)))

      state_at-Ends :
          (name : String) (tips : List String)
          → Keeps (state_at id_of order from_bytes states tree crdt name tips)
      state_at-Ends name tips w i =
          let (m, c, e) =
            compute-Ended id_of order from_bytes states tree crdt w.txn.encryptors name w.inner tips
              w.cache in
          (m, record w { cache = c }, rw (state_at, e) refl, i)

      -- Reading the full state of a store ends, whatever the cache holds.
      pub get_full_state-Ends :
          (name : String) → Keeps (get_full_state id_of order from_bytes states tree crdt name)
      unfolding get_full_state
      get_full_state-Ends name = bind-Ends staged-Ends (λ b.
          bind-Ends (init_if_needed-Ends name b) (λ u. bind-Ends staged-Ends (λ now.
            if-Ends (is_empty_list (parents_in (parents_in_subtree name now)))
              (lift-Ends (ok crdt.default_state)) (state_at-Ends name _))))

-- ===== src/Transaction/State/Plain.antt =====
-- The state of a store at some tips without the cache of states, as
-- crates/lib/src/transaction/mod.rs computes it where nothing is cached.
use eidetica.Base.{String, List, [], ◌∷◌, none, some, ◌≡◌, inl, inr, refl, subst, ap}
use eidetica.Base.Outcome.{Outcome, ok, err, map_err, Outcome-cases}
use eidetica.Entry.{Entry}
use eidetica.Entry.Order.{IdOrder}
use eidetica.Backend.Storage.{InMemoryInner}
use eidetica.Backend.Traversal.MergeBase.{find_merge_base}
use eidetica.Backend.Traversal.MergeBase.Ancestors.{Ancestor}
use eidetica.Backend.Traversal.MergeBase.Lowest.{Lowest, find_merge_base-Lowest}
use eidetica.Backend.Traversal.MergeBase.{verify_entries}
use eidetica.Backend.Error.{ReadError, Ran}
use eidetica.Backend.Storage.Read.Laws.{store_at-IsRead}
use eidetica.Backend.Traversal.Paths.{get_path_from_to}
use eidetica.Backend.Traversal.Paths.Between.{get_path_from_to-Says}
use eidetica.Transaction.Error.{TxnError, backend_failed, Tried, from_backend, ◌>>!◌}
use eidetica.Transaction.State.{
  Crdt, Encryptor, StateCache, merge_all, merge_path_entries, state_of_entry, merge_from,
}

module _ (id_of : Entry → String) (order : IdOrder) (from_bytes : String → String)
    (states : StateCache) {T : Type 0} (crdt : Crdt T) (encryptors : List (String × Encryptor))
    (tree name : String) (s : InMemoryInner) where
  abbrev pub at_entry : String → Tried T
  at_entry id = state_of_entry id_of order from_bytes states crdt encryptors tree name s id

  abbrev pub further : List String → String → T → Tried T
  further tips base t =
      merge_from id_of order from_bytes states crdt encryptors tree name s tips base t

  -- The state at some tips as it is without a cache: that at their merge base, and what the entries
  -- on the ways from there to the tips change.
  unfoldable pub state_of_tips : List String → Tried T
  unfolding state_of_entry merge_from find_merge_base
  state_of_tips [] = some (ok crdt.default_state)
  state_of_tips (id ∷ []) = at_entry id
  state_of_tips (id ∷ (next ∷ ids)) =
      let tips = id ∷ (next ∷ ids) in
      from_backend (find_merge_base id_of tree name tips s) >>! λ base. at_entry base >>! λ t.
      merge_from id_of order from_bytes states crdt encryptors tree name s tips base t

  pub backend-ok {ℓ} :
      {A : Type ℓ} (m : Ran A) (a : A) → from_backend m ≡ some (ok a) → m ≡ some (ok a)
  backend-ok none a h = absurd (cc)
  backend-ok (some (ok b)) a h = cc
  backend-ok (some (err e)) a h = absurd (cc)

  -- `find_merge_base` ends, and an entry that it answers with is an ancestor of the first tip
  pub merge_base :
      (id next : String) (ids : List String)
      → (m : Outcome ReadError String) × (find_merge_base id_of tree name (id ∷ (next ∷ ids)) s
          ≡ some m)
        × ((base : String) → m ≡ ok base → Ancestor id_of name s.entries id base)
  merge_base id next ids =
      elim (Outcome-cases (verify_entries id_of tree s.entries (id ∷ (next ∷ ids)))) [
        | inl (u, e) ↦
            lowest (find_merge_base id_of tree name (id ∷ (next ∷ ids)) s) refl
              (find_merge_base-Lowest id_of tree name id next ids s e)
        | inr (x, e) ↦ (err x, unfold find_merge_base in rw e refl, λ base h. absurd (cc))
      ]
    where
      lowest :
          (r : Ran String)
          → find_merge_base id_of tree name (id ∷ (next ∷ ids)) s ≡ r
          → Lowest id_of name s.entries (id ∷ (next ∷ ids)) r
          → (m : Outcome ReadError String) × (find_merge_base id_of tree name (id ∷ (next ∷ ids)) s
              ≡ some m)
            × ((base : String) → m ≡ ok base → Ancestor id_of name s.entries id base)
      lowest none q l = absurd (l tt)
      lowest (some (ok b)) q l =
          (ok b, q, λ base h. subst (Ancestor id_of name s.entries id) (cc) l.0.0)
      lowest (some (err x)) q l = (err x, q, λ base h. absurd (cc))

  -- the state at an entry and the merge of a path end
  pub entry-ends : (id : String) → (m : Outcome TxnError T) × (at_entry id ≡ some m)
  unfolding state_of_entry
  entry-ends id =
      let (es, e, read) = store_at-IsRead id_of order tree name (id ∷ []) s in
      (merge_all crdt encryptors name crdt.default_state es, rw e refl)

  pub further-ends :
      (tips : List String) (base : String) (t : T)
      → (m : Outcome TxnError T) × (further tips base t ≡ some m)
  unfolding merge_from
  further-ends tips base t =
      let (r, e, says) = get_path_from_to-Says id_of order tree name base tips s in merged r e
    where
      merged :
          (r : Outcome ReadError (List String))
          → get_path_from_to id_of order tree name base tips s ≡ some r
          → (m : Outcome TxnError T) × (further tips base t ≡ some m)
      merged (ok path) e =
          (merge_path_entries crdt encryptors name id_of s.entries t path, rw e refl)
      merged (err x) e = (err (backend_failed x), rw e refl)

  then-ends {ℓ κ} :
      {A : Type ℓ} {B : Type κ} (m : Outcome TxnError A) (o : Tried A) (f : A → Tried B)
      → o ≡ some m
      → ((a : A) → (r : Outcome TxnError B) × (f a ≡ some r))
      → (r : Outcome TxnError B) × ((o >>! f) ≡ some r)
  then-ends (ok a) o f e h = let (r, q) = h a in (r, rw e q)
  then-ends (err x) o f e h = (err x, rw e refl)

  pub tips-end : (ids : List String) → (m : Outcome TxnError T) × (state_of_tips ids ≡ some m)
  unfolding state_of_tips
  tips-end [] = (ok crdt.default_state, refl)
  tips-end (id ∷ []) = entry-ends id
  tips-end (id ∷ (next ∷ ids)) =
      let (m, e, anc) = merge_base id next ids in
      then-ends (map_err backend_failed m) _ _ (ap from_backend e) (λ base.
        let (r, q) = entry-ends base in
        then-ends r _ _ q (λ t. further-ends (id ∷ (next ∷ ids)) base t))

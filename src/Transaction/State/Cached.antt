-- ===== src/Transaction/State/Cached.antt =====
-- About the cache of states that `compute_subtree_state_merge_based` of
-- crates/lib/src/transaction/mod.rs reads and fills.
use eidetica.Base.{
  String, List, [], ◌∷◌, true, none, some, Option-cases, eq_refl, ◌≡◌, ◌⊎◌, inl, inr, refl, sym,
  subst, ap, ◌∙◌,
}
use eidetica.Base.Outcome.{Outcome, ok, err}
use eidetica.Entry.{Entry}
use eidetica.Entry.Order.{IdOrder}
use eidetica.Backend.Storage.{InMemoryInner, is_in}
use eidetica.Backend.Traversal.MergeBase.{find_merge_base}
use eidetica.Backend.Traversal.MergeBase.Ancestors.{Ancestor, self}
use eidetica.Transaction.Error.{TxnError, Tried, from_backend, ◌>>!◌}
use eidetica.Transaction.State.{
  Crdt, Encryptor, StateCache, encrypt_if_needed, decrypt_if_needed, decode, create_merge_cache_id,
  Cached, seal, remember, state_of_entry, compute_single_entry_state, merge_on, merge_at,
  compute_subtree_state_merge_based,
}
use eidetica.Transaction.State.Plain as Plain
use eidetica.Transaction.State.Plain.{backend-ok, merge_base, tips-end}

module _ (id_of : Entry → String) (order : IdOrder) (from_bytes : String → String)
    (states : StateCache) {T : Type 0} (crdt : Crdt T) (encryptors : List (String × Encryptor))
    (tree name : String) (s : InMemoryInner) where
  open states use {Cache, get_cached, cache_state}

  abbrev merge_id : List String → String
  merge_id ids = create_merge_cache_id id_of order from_bytes states ids

  abbrev at_entry : String → Tried T
  at_entry id = Plain.at_entry id_of order from_bytes states crdt encryptors tree name s id

  abbrev further : List String → String → T → Tried T
  further tips base t =
      Plain.further id_of order from_bytes states crdt encryptors tree name s tips base t

  abbrev state_of_tips : List String → Tried T
  state_of_tips ids =
      Plain.state_of_tips id_of order from_bytes states crdt encryptors tree name s ids

  -- the ids that are not the cache's for any tips
  abbrev pub NoMerge : String → Type 0
  NoMerge key = (ids : List String) → ¬ (merge_id ids ≡ key)

  abbrev pub StateAt : String → T → Type 0
  StateAt key t =
      (NoMerge key × (at_entry key ≡ some (ok t)))
      ⊎ ((ids : List String) × (merge_id ids ≡ key) × (state_of_tips ids ≡ some (ok t)))

  -- An item is the sealed state at the entry of that id, or at tips with that cache id.
  unfoldable pub IsState : String → String → Type 0
  unfolding decode state_of_entry create_merge_cache_id
  IsState key bytes = (t : T) × (decode crdt encryptors name bytes ≡ ok t) × StateAt key t

  abbrev pub Honest : Cache → Type 0
  Honest c = (key bytes : String) → (get_cached key name c).0 ≡ some bytes → IsState key bytes

  -- Each state can be written and sealed, and the encryptor of the store opens what it sealed.
  abbrev pub Seals : Type 0
  Seals =
      (t : T)
      → (text bytes : String) × (crdt.to_json t ≡ some text)
        × (encrypt_if_needed encryptors name text ≡ ok bytes)
        × (decrypt_if_needed encryptors name bytes ≡ ok text)

  abbrev attach : Tried T → Cache → Cached id_of order from_bytes states crdt encryptors tree name s
  attach none c = none
  attach (some m) c = some (m, c)

  Honest-get : (id : String) (c : Cache) → Honest c → Honest (get_cached id name c).1
  Honest-get id c h key bytes found = h key bytes (states.get_kept id name key name c bytes found)

  decode-sealed :
      (t : T) (text bytes : String)
      → crdt.to_json t ≡ some text
      → decrypt_if_needed encryptors name bytes ≡ ok text
      → decode crdt encryptors name bytes ≡ ok t
  unfolding decode
  decode-sealed t text bytes w h = rw (h, crdt.from_to_json t text w) refl

  seal_lem :
      (t : T) (text bytes : String)
      → crdt.to_json t ≡ some text
      → encrypt_if_needed encryptors name text ≡ ok bytes
      → seal id_of order from_bytes states crdt encryptors tree name s t ≡ ok bytes
  unfolding seal
  seal_lem t text bytes w h = rw (w, h) refl

  abbrev keep :
      String → Cache → Tried T → Cached id_of order from_bytes states crdt encryptors tree name s
  keep id c m = remember id_of order from_bytes states crdt encryptors tree name s id c m

  -- the result of a call with the cache is that without, and the cache stays honest
  abbrev Answers :
      Tried T → Cached id_of order from_bytes states crdt encryptors tree name s → Type 0
  Answers m r = (c : Cache) × (r ≡ attach m c) × Honest c

  remember-Answers :
      (id : String) (c : Cache) (m : Tried T)
      → Seals
      → ((t : T) → m ≡ some (ok t) → StateAt id t)
      → Honest c
      → Answers m (keep id c m)
  remember-Answers id c none seals says h = (c, refl, h)
  remember-Answers id c (some (err e)) seals says h = (c, refl, h)
  remember-Answers id c (some (ok t)) seals says h =
      let (text, bytes, wrote, sealed, opens) = seals t in
      (
        cache_state id name bytes c,
        rw (seal_lem t text bytes wrote sealed) refl,
        λ key b found. elim (states.put_kept id name key name c bytes b found) [
          | inl (k, n, same) ↦
              unfold IsState in
              (
                t,
                ap (decode crdt encryptors name) same ∙ decode-sealed t text bytes wrote opens,
                subst (λ u. StateAt u t) (sym k) (says t refl),
              )
          | inr old ↦ h key b old
        ],
      )

  single-Answers :
      (id : String) (c : Cache)
      → Seals
      → NoMerge id
      → Honest c
      → Answers (at_entry id) (
          compute_single_entry_state id_of order from_bytes states crdt encryptors tree name s id c)
  unfolding compute_single_entry_state
  single-Answers id c seals apart h = elim (Option-cases (get_cached id name c).0) [
    | inl e ↦ rw e (
        remember-Answers id (get_cached id name c).1 (at_entry id) seals (λ t q. inl (apart, q))
          (Honest-get id c h))
    | inr (bytes, e) ↦ rw e (from_item bytes (unfold IsState in h id bytes e))
  ]
    where
      from_item :
          (bytes : String)
          → (t : T) × (decode crdt encryptors name bytes ≡ ok t) × StateAt id t
          → Answers
              (at_entry id)
              (some (decode crdt encryptors name bytes, (get_cached id name c).1))
      from_item bytes (t, d, inl (mine, q)) =
          ((get_cached id name c).1, rw (d, q) refl, Honest-get id c h)
      from_item bytes (t, d, inr (ids, same, q)) = absurd (apart ids same)

  on-Answers :
      (tips : List String) (base : String) (c : Cache) (m : Tried T)
      → Seals
      → ((t : T) → (m >>! λ u. further tips base u) ≡ some (ok t) → StateAt (merge_id tips) t)
      → Honest c
      → Answers (m >>! λ t. further tips base t) (
          merge_on id_of order from_bytes states crdt encryptors tree name s
            (merge_id tips)
            tips
            base
            (attach m c))
  on-Answers tips base c none seals says h = (c, refl, h)
  on-Answers tips base c (some (err e)) seals says h = (c, refl, h)
  on-Answers tips base c (some (ok t)) seals says h =
      remember-Answers (merge_id tips) c (further tips base t) seals says h

  at-Answers :
      (tips : List String) (c : Cache) (m : Tried String)
      → Seals
      → ((base : String) → m ≡ some (ok base) → NoMerge base)
      → ((t : T)
          → (m >>! λ base. at_entry base >>! λ u. further tips base u) ≡ some (ok t)
          → StateAt (merge_id tips) t)
      → Honest c
      → Answers (m >>! λ base. at_entry base >>! λ t. further tips base t) (
          merge_at id_of order from_bytes states crdt encryptors tree name s
            (merge_id tips)
            tips
            c
            m)
  at-Answers tips c none seals apart says h = (c, refl, h)
  at-Answers tips c (some (err e)) seals apart says h = (c, refl, h)
  at-Answers tips c (some (ok base)) seals apart says h =
      let (d, e, honest) = single-Answers base c seals (apart base refl) h in
      rw e (on-Answers tips base d (at_entry base) seals says honest)

  -- two or more tips
  abbrev Several : List String → Cache → Type 0
  Several tips c =
      (ids : List String) × (merge_id ids ≡ merge_id tips)
      × Answers (state_of_tips ids) (
          compute_subtree_state_merge_based id_of order from_bytes states crdt encryptors tree name
            s tips c)

  many-Answers :
      (id next : String) (ids : List String) (c : Cache)
      → Seals
      → ((base : String)
          → from_backend (find_merge_base id_of tree name (id ∷ (next ∷ ids)) s) ≡ some (ok base)
          → NoMerge base)
      → Honest c
      → Several (id ∷ (next ∷ ids)) c
  unfolding compute_subtree_state_merge_based Plain.state_of_tips
  many-Answers id next ids c seals apart h =
      let tips = id ∷ (next ∷ ids) in
      let after = (get_cached (merge_id tips) name c).1 in
      elim (Option-cases (get_cached (merge_id tips) name c).0) [
        | inl e ↦ (
          tips,
          refl,
          rw e (
              at-Answers tips after _ seals apart (λ t q. inr (tips, refl, q))
                (Honest-get (merge_id tips) c h)),
        )
        | inr (bytes, e) ↦ rw e (from_item bytes (unfold IsState in h (merge_id tips) bytes e))
      ]
    where
      from_item :
          (bytes : String)
          → (t : T) × (decode crdt encryptors name bytes ≡ ok t)
            × StateAt (merge_id (id ∷ (next ∷ ids))) t
          → (others : List String) × (merge_id others ≡ merge_id (id ∷ (next ∷ ids)))
            × Answers (state_of_tips others) (
                some (
                  decode crdt encryptors name bytes,
                  (get_cached (merge_id (id ∷ (next ∷ ids))) name c).1,
                ))
      from_item bytes (t, d, inl (mine, q)) = absurd (mine (id ∷ (next ∷ ids)) refl)
      from_item bytes (t, d, inr (others, same, q)) = (
        others,
        same,
        (
          (get_cached (merge_id (id ∷ (next ∷ ids))) name c).1,
          rw (d, q) refl,
          Honest-get (merge_id (id ∷ (next ∷ ids))) c h,
        ),
      )

  abbrev compute :
      List String → Cache → Cached id_of order from_bytes states crdt encryptors tree name s
  compute ids c =
      compute_subtree_state_merge_based id_of order from_bytes states crdt encryptors tree name s
        ids c

  any-Several :
      (ids : List String) (c : Cache)
      → Seals
      → ((tip v : String) → is_in tip ids ≡ true → Ancestor id_of name s.entries tip v → NoMerge v)
      → Honest c
      → Several ids c
  unfolding compute_subtree_state_merge_based Plain.state_of_tips
  any-Several [] c seals apart h = ([], refl, (c, refl, h))
  any-Several (id ∷ []) c seals apart h =
      (id ∷ [], refl, single-Answers id c seals (apart id id (rw (eq_refl id) refl) self) h)
  any-Several (id ∷ (next ∷ ids)) c seals apart h =
      many-Answers id next ids c seals
        (λ base found.
          let (m, e, anc) =
            merge_base id_of order from_bytes states crdt encryptors tree name s id next ids in
          apart id base (rw (eq_refl id) refl) (
            anc base (
              cc (
                e,
                backend-ok id_of order from_bytes states crdt encryptors tree name s _ base found,
              ))))
        h

  -- If each state can be written and sealed and the encryptor of the store opens what it
  -- sealed, no ancestor of the tips in the store has
  -- the cache's id for any tips, and each item of the cache for the store is the sealed state at the
  -- entry or at the tips of its id, then computing the state of the store at the tips ends; it
  -- answers as the computation without a cache does for tips of the same cache id, an error of
  -- that included, and each item of the cache is such a state afterwards.
  pub compute-state_of_tips :
      (ids : List String) (c : Cache)
      → Seals
      → ((tip v : String) → is_in tip ids ≡ true → Ancestor id_of name s.entries tip v → NoMerge v)
      → Honest c
      → (others : List String) × (m : Outcome TxnError T) × (after : Cache) × (merge_id others
          ≡ merge_id ids)
        × (state_of_tips others ≡ some m)
        × (compute_subtree_state_merge_based id_of order from_bytes states crdt encryptors tree name
              s ids c
            ≡ some (m, after))
        × Honest after
  compute-state_of_tips ids c seals apart h =
      let (others, same, (after, e, honest)) = any-Several ids c seals apart h in
      let (m, ends) = tips-end id_of order from_bytes states crdt encryptors tree name s others in
      (others, m, after, same, ends, e ∙ ap (λ o. attach o after) ends, honest)

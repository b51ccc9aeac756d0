-- ===== src/Store/Tests/States.antt =====
-- The theorem on the cache of states, at a store with two tips and their common parent.
use Prim.Native.String.{◌++◌ as str_append}
use eidetica.Base.{
  String, List, [], ◌∷◌, Bool, true, false, Option, none, some, str_eq, eq_iff, cons-nil_lem, ◌≡◌,
  ◌⊎◌, inl, inr, refl, sym, subst, ap, Bool-cases, if◌then◌else◌, arith,
}
use eidetica.Base.Outcome.{Outcome, ok}
use eidetica.Entry.{Entry, subtree_parents}
use eidetica.Entry.Order.Texts.{text_order}
use eidetica.Backend.Assoc.{find}
use eidetica.Backend.Storage.{InMemoryInner, is_in, get_entry}
use eidetica.Backend.Traversal.MergeBase.Climb.{parents_of, parents_at}
use eidetica.Backend.Traversal.MergeBase.Ancestors.{Ancestor, self, older}
use eidetica.Transaction.Error.{TxnError}
use eidetica.Transaction.State.{
  Crdt, encrypt_if_needed, decrypt_if_needed, create_merge_cache_id,
  compute_subtree_state_merge_based,
}
use eidetica.Transaction.State.Cached.{Honest, NoMerge, Seals, compute-state_of_tips}
use eidetica.Transaction.State.Plain.{state_of_tips}
use eidetica.Store.Tests.{Items, latest, find_state}
use eidetica.Store.Tests.Rows.{id_of, unsigned, cid, root}

-- A text, to which each entry adds.
abbrev opened : String → Option String
opened String.[] = none
opened (String.◌∷◌ c t) = some t

sealed-opened :
    (t s : String) → some (String.◌∷◌ "s" t) ≡ some s → (opened s ≡ some t) × (str_eq s "" ≡ false)
sealed-opened t s h =
    let e : String.◌∷◌ "s" t ≡ s = cc (h) in
    subst (λ x. (opened x ≡ some t) × (str_eq x "" ≡ false)) e (refl, rw (cons-nil_lem "s" t) refl)

abbrev notes : Crdt String
notes = record {
  default_state = "";
  merge = λ a b. ok (str_append a b);
  to_json = λ t. some (String.◌∷◌ "s" t);
  from_json = opened;
  from_to_json = λ t s h. (sealed-opened t s h).0;
  json_has_text = λ t s h. (sealed-opened t s h).1;
}

abbrev wrote : String → String → List String → Entry
wrote id s parents = record {
  tree = record { root = some "R"; parents = "R" ∷ []; metadata = some id; height = 1 };
  subtrees = record { name = "notes"; parents = parents; payload = some s; height = none } ∷ [];
  sig = record { sig = none; key = unsigned };
}

abbrev forked : InMemoryInner
forked = record {
  entries =
      wrote "C" "sz" ("A" ∷ []) ∷ (wrote "B" "sy" ("A" ∷ []) ∷ (wrote "A" "sx" [] ∷ (root ∷ [])));
  verification_status = [];
  tips = [];
}

abbrev tips : List String
tips = "B" ∷ ("C" ∷ [])

-- no id of the store starts as those of the cache do
abbrev apart : String → Bool
apart String.[] = true
apart (String.◌∷◌ c t) = if str_eq (String.◌∷◌ c "") "m" then false else true

apart-NoMerge :
    (v : String)
    → apart v ≡ true
    → NoMerge id_of text_order cid latest notes [] "R" "notes" forked v
unfolding create_merge_cache_id
apart-NoMerge v h ids e = absurd (cc (h, ap apart e))

abbrev writers : List String
writers = "A" ∷ ("B" ∷ ("C" ∷ []))

writer-cases : (v : String) → is_in v writers ≡ true → ("A" ≡ v) ⊎ (("B" ≡ v) ⊎ ("C" ≡ v))
writer-cases v h = elim (Bool-cases (str_eq "A" v)) [
  | inl a ↦ inl ((eq_iff "A" v).0 a)
  | inr other ↦ elim (Bool-cases (str_eq "B" v)) [
    | inl b ↦ inr (inl ((eq_iff "B" v).0 b))
    | inr neither ↦ inr (inr ((eq_iff "C" v).0 (ground arith)))
  ]
]

apart_of_in : (v : String) → is_in v writers ≡ true → apart v ≡ true
apart_of_in v h = elim (writer-cases v h) [
  | inl a ↦ subst (λ x. apart x ≡ true) a refl
  | inr (inl b) ↦ subst (λ x. apart x ≡ true) b refl
  | inr (inr c) ↦ subst (λ x. apart x ≡ true) c refl
]

writers-parents :
    (u v : String)
    → ("A" ≡ u) ⊎ (("B" ≡ u) ⊎ ("C" ≡ u))
    → is_in v (parents_of id_of "notes" forked.entries u) ≡ true
    → is_in v writers ≡ true
unfolding parents_at get_entry subtree_parents
writers-parents u v (inl a) m =
    absurd (cc (subst (λ x. is_in v (parents_of id_of "notes" forked.entries x) ≡ true) (sym a) m))
writers-parents u v (inr (inl b)) m =
    let h = subst (λ x. is_in v (parents_of id_of "notes" forked.entries x) ≡ true) (sym b) m in
    ground arith
writers-parents u v (inr (inr c)) m =
    let h = subst (λ x. is_in v (parents_of id_of "notes" forked.entries x) ≡ true) (sym c) m in
    ground arith

known :
    (id v : String)
    → is_in id tips ≡ true
    → Ancestor id_of "notes" forked.entries id v
    → is_in v writers ≡ true
known id v h self = ground arith
known id v h (older {u} a m) = writers-parents u v (writer-cases u (known id u h a)) m

notes-Seals : Seals id_of text_order cid latest notes [] "R" "notes" forked
unfolding encrypt_if_needed decrypt_if_needed find
notes-Seals t = (String.◌∷◌ "s" t, String.◌∷◌ "s" t, refl, refl, refl)

compute-state_of_tips_example :
    (others : List String) × (m : Outcome TxnError String) × (after : Items)
    × (create_merge_cache_id id_of text_order cid latest others
        ≡ create_merge_cache_id id_of text_order cid latest tips)
    × (state_of_tips id_of text_order cid latest notes [] "R" "notes" forked others ≡ some m)
    × (compute_subtree_state_merge_based id_of text_order cid latest notes [] "R" "notes" forked
          tips []
        ≡ some (m, after))
    × Honest id_of text_order cid latest notes [] "R" "notes" forked after
compute-state_of_tips_example =
    compute-state_of_tips id_of text_order cid latest notes [] "R" "notes" forked tips []
      notes-Seals (λ id v h a. apart-NoMerge v (apart_of_in v (known id v h a)))
      (λ key bytes h. absurd (unfold find_state in cc))

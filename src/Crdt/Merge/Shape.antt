-- ===== src/Crdt/Merge/Shape.antt =====
-- The shape of a value: which keys and positions hold leaves, which hold documents and which lists,
-- at every depth. Values of one shape also have their entries in order, each key and position once.
use Prim.Native.Nat.Ordering.{lt, eq}
use mathlib.Core.Path.{subst}
use eidetica.Base.{
  ◌≡◌, refl, ap, ◌∙◌, String, true, arith, less, same, more, Ordering-cases, inl, inr, Bool-cases,
  eq_of_compare_text,
}
use eidetica.Crdt.Key.{
  Keyed, by_name, by_position, Key, compare_key, lt_of_gt-Key, lt_trans_Key, eq_left-Key,
}
use eidetica.Crdt.Value.{Value, null, doc, list, deleted, is_leaf, Entries, end, entry}
use eidetica.Crdt.Position.{Position}
use eidetica.Crdt.Merge.{upsert, merge_value, merge_entries}

pub data Shape : Type 0 where
  leaf : Shape
  doc_of : (String → Shape) → Shape
  list_of : (Position → Shape) → Shape

-- every key of the container stands behind `k`
abbrev pub Above : {c : Keyed} → Key c → Entries c → Type 0
Above k end = Unit
Above {c} k (entry j w m) = (compare_key c k j ≡ lt) × Above k m

-- Keys that compare as equal have one shape.
abbrev pub Respects : (c : Keyed) → (Key c → Shape) → Type 0
Respects c s = (x y : Key c) → compare_key c x y ≡ eq → s x ≡ s y

abbrev mutual
  pub Fits : Shape → Value → Type 0
  Fits leaf v = is_leaf v ≡ true
  Fits (doc_of s) (doc a m) = AllFit s m
  Fits (list_of s) (list l) = Respects by_position s × AllFit s l
  Fits s v = ⊥

  pub AllFit : {c : Keyed} → (Key c → Shape) → Entries c → Type 0
  AllFit s end = Unit
  AllFit s (entry k v m) = Above k m × Fits (s k) v × AllFit s m

pub names-Respects : (s : String → Shape) → Respects by_name s
names-Respects s x y h = ap s (eq_of_compare_text x y h)

module _ {c : Keyed} where
  pub Above-trans : (k j : Key c) (m : Entries c) → compare_key c k j ≡ lt → Above j m → Above k m
  Above-trans k j end h a = tt
  Above-trans k j (entry i w m) h a = (lt_trans_Key c k j i h a.0, Above-trans k j m h a.1)

  pub Above-same : (k j : Key c) (m : Entries c) → compare_key c k j ≡ eq → Above j m → Above k m
  Above-same k j end h a = tt
  Above-same k j (entry i w m) h a = (eq_left-Key c k j i h ∙ a.0, Above-same k j m h a.1)

  pub Above-upsert :
      (f : Value → Value) (v : Value) (j k : Key c) (m : Entries c)
      → compare_key c j k ≡ lt
      → Above j m
      → Above j (upsert f v k m)
  unfolding upsert
  Above-upsert f v j k end h a = (h, tt)
  Above-upsert f v j k (entry i w m) h a = ground (arith, Above-upsert f v j k m)

  pub AllFit-upsert :
      (s : Key c → Shape) (f : Value → Value) (v : Value) (k : Key c) (m : Entries c)
      → Respects c s
      → ((x : Value) → Fits (s k) x → Fits (s k) (f x))
      → Fits (s k) v
      → AllFit s m
      → AllFit s (upsert f v k m)
  unfolding upsert
  AllFit-upsert s f v k end r keeps fv h = (tt, fv, tt)
  AllFit-upsert s f v k (entry j w m) r keeps fv h = elim (Ordering-cases (compare_key c k j)) [
    | less e ↦ rw (e, upsert) ((e, Above-trans k j m e h.0), fv, h)
    | same e ↦
        rw (e, upsert) (h.0, subst (λ t. Fits t (f w)) (r k j e) (keeps w (rw (r k j e) h.1)), h.2)
    | more e ↦
        rw (e, upsert)
          (
            Above-upsert f v j k m (lt_of_gt-Key c k j e) h.0,
            h.1,
            AllFit-upsert s f v k m r keeps fv h.2,
          )
  ]

-- A leaf or a tombstone replaces whatever it is merged into.
pub merge-leaf : (a b : Value) → is_leaf b ≡ true → merge_value a b ≡ b
unfolding merge_value
merge-leaf null (doc x m) h = cc
merge-leaf null (list l) h = cc
merge-leaf null deleted h = refl
merge-leaf (doc a m) (doc b n) h = cc
merge-leaf (list l) (list k) h = cc
merge-leaf _ _ h = ground arith

mutual
  unfolding merge_value

  pub Fits-merge : (s : Shape) (a b : Value) → Fits s a → Fits s b → Fits s (merge_value a b)
  Fits-merge leaf a b fa fb = rw (merge-leaf a b fb) fb
  Fits-merge (doc_of s) (doc x m) (doc y n) fa fb = elim (Bool-cases y) [
    | inl e ↦ rw (e, merge_value) fb
    | inr e ↦ rw (e, merge_value) (AllFit-merge s m n (names-Respects s) fa fb)
  ]
  Fits-merge (list_of s) (list l) (list k) fa fb = (fa.0, AllFit-merge s l k fa.0 fa.1 fb.1)
  Fits-merge _ _ _ fa fb = ground arith

  AllFit-merge :
      {c : Keyed} (s : Key c → Shape) (m n : Entries c)
      → Respects c s
      → AllFit s m
      → AllFit s n
      → AllFit s (merge_entries m n)
  AllFit-merge s m end r fm fn = fm
  AllFit-merge s m (entry k v n) r fm fn =
      AllFit-merge s (upsert (λ w. merge_value w v) v k m) n r
        (AllFit-upsert s (λ w. merge_value w v) v k m r (λ x fx. Fits-merge (s k) x v fx fn.1) fn.1
          fm)
        fn.2

-- ===== src/Crdt/Merge/Assoc.antt =====
-- Associativity of merging, for values of one shape.
use mathlib.Core.Path.{subst}
use Prim.Native.Nat.Ordering.{lt, eq, gt}
use eidetica.Base.{
  ◌≡◌, refl, ap, ◌∙◌, sym, Bool, true, false, arith, less, same, more, Ordering-cases,
}
use eidetica.Crdt.Key.{Keyed, by_name, by_position, Key, compare_key}
use eidetica.Crdt.Value.{Value, doc, list, Entries, end, entry}
use eidetica.Crdt.Merge.{upsert, merge_value, merge_entries}
use eidetica.Crdt.Merge.Upsert.{
  take_in, merge-end, merge-entry, upsert-upsert_same, upsert-upsert_ne,
}
use eidetica.Crdt.Merge.Shape.{
  Shape, leaf, doc_of, list_of, Above, Above-trans, Above-same, Fits, AllFit, Respects,
  names-Respects, AllFit-upsert, merge-leaf, Fits-merge,
}

module _ {c : Keyed} where
  module _ (k : Key c) (v : Value) (j : Key c) (w : Value) (n : Entries c) where
    take_in-less : compare_key c k j ≡ lt → take_in k v (entry j w n) ≡ entry k v (entry j w n)
    unfolding take_in upsert
    take_in-less e = ground arith

    take_in-same : compare_key c k j ≡ eq → take_in k v (entry j w n) ≡ entry j (merge_value w v) n
    unfolding take_in upsert
    take_in-same e = ground arith

    take_in-more : compare_key c k j ≡ gt → take_in k v (entry j w n) ≡ entry j w (take_in k v n)
    unfolding take_in upsert
    take_in-more e = ground arith

  -- A write at a key in front of all of `n` may be made before `n` is merged in, or after.
  take_in-merge-Above :
      (k : Key c) (v : Value) (m n : Entries c)
      → Above k n
      → take_in k v (merge_entries m n) ≡ merge_entries (take_in k v m) n
  take_in-merge-Above k v m end a = simp merge-end
  take_in-merge-Above k v m (entry j w n) a = simp merge-entry (
      take_in-merge-Above k v (take_in j w m) n a.1
      ∙ ap (λ (t : Entries c). merge_entries t n)
          (unfold take_in in
            upsert-upsert_ne (λ x. merge_value x v) (λ x. merge_value x w) v w k j m
              (λ e. ground (arith, a.0))))

  -- Two changes that agree on the values of the container's shape write the same.
  upsert-cong :
      (s : Key c → Shape) (f g : Value → Value) (v : Value) (k : Key c) (m : Entries c)
      → ((x : Value) → Fits (s k) x → f x ≡ g x)
      → Respects c s
      → AllFit s m
      → upsert f v k m ≡ upsert g v k m
  unfolding upsert
  upsert-cong s f g v k end h r fm = refl
  upsert-cong s f g v k (entry j w m) h r fm = elim (Ordering-cases (compare_key c k j)) [
    | less e ↦ rw (e, upsert)
    | same e ↦
        rw (e, upsert)
          (ap (λ (t : Value). entry j t m) (h w (subst (λ t. Fits t w) (sym (r k j e)) fm.1)))
    | more e ↦ rw (e, upsert) (ap (entry j w) (upsert-cong s f g v k m h r fm.2))
  ]

  take_in-AllFit :
      (s : Key c → Shape) (r : Respects c s) (k : Key c) (v : Value)
      → Fits (s k) v
      → (m : Entries c) → AllFit s m
      → AllFit s (take_in k v m)
  unfolding take_in
  take_in-AllFit s r k v fv m fm =
      AllFit-upsert s (λ w. merge_value w v) v k m r (λ x fx. Fits-merge (s k) x v fx fv) fv fm

  module _ (s : Key c → Shape) (r : Respects c s) (k : Key c) (v : Value) (fv : Fits (s k) v) where
    -- Two writes at one key are one write of the merged value.
    take_in-take_in :
        (j : Key c) (w : Value) (m : Entries c)
        → compare_key c k j ≡ eq
        → AllFit s m
        → Fits (s j) w
        → ((x w : Value)
            → Fits (s k) x
            → Fits (s k) w
            → merge_value (merge_value x w) v ≡ merge_value x (merge_value w v))
        → take_in k v (take_in j w m) ≡ take_in j (merge_value w v) m
    unfolding take_in
    take_in-take_in j w m e fm fw assoc =
        let back = λ (x : Value) (fx : Fits (s j) x). subst (λ t. Fits t x) (sym (r k j e)) fx in
        upsert-upsert_same (λ x. merge_value x v) (λ x. merge_value x w) v w k j m e
        ∙ upsert-cong s _ _ (merge_value w v) j m (λ x fx. assoc x w (back x fx) (back w fw)) r fm

    -- Merging one more entry in after `n` is merging it into `n` first.
    take_in-merge :
        (m n : Entries c)
        → AllFit s m
        → AllFit s n
        → ((x w : Value)
            → Fits (s k) x
            → Fits (s k) w
            → merge_value (merge_value x w) v ≡ merge_value x (merge_value w v))
        → take_in k v (merge_entries m n) ≡ merge_entries m (take_in k v n)
    take_in-merge m end fm fn assoc = unfold take_in upsert merge_value in refl
    take_in-merge m (entry j w n) fm fn assoc = elim (Ordering-cases (compare_key c k j)) [
      | less e ↦ rw (take_in-less k v j w n e) (
          take_in-merge-Above k v m (entry j w n) (e, Above-trans k j n e fn.0)
          ∙ sym (merge-entry m k v (entry j w n)))
      | same e ↦ rw (take_in-same k v j w n e) (
          ap (take_in k v) (merge-entry m j w n)
          ∙ take_in-merge-Above k v (take_in j w m) n (Above-same k j n e fn.0)
          ∙ ap (λ (t : Entries c). merge_entries t n) (take_in-take_in j w m e fm fn.1 assoc)
          ∙ sym (merge-entry m j (merge_value w v) n))
      | more e ↦ rw (take_in-more k v j w n e) (
          ap (take_in k v) (merge-entry m j w n)
          ∙ take_in-merge (take_in j w m) n (take_in-AllFit s r j w fn.1 m fm) fn.2 assoc
          ∙ sym (merge-entry m j w (take_in k v n)))
    ]

-- an atomic document replaces, and keeps the flag of the first otherwise
merge_assoc-doc :
    (a b d : Bool) (m n o : Entries by_name)
    → merge_entries (merge_entries m n) o ≡ merge_entries m (merge_entries n o)
    → merge_value (merge_value (doc a m) (doc b n)) (doc d o)
      ≡ merge_value (doc a m) (merge_value (doc b n) (doc d o))
unfolding merge_value
merge_assoc-doc a true true m n o h = refl
merge_assoc-doc a false true m n o h = refl
merge_assoc-doc a true false m n o h = refl
merge_assoc-doc a false false m n o h = ap (doc a) h

merge_assoc-list :
    (m n o : Entries by_position)
    → merge_entries (merge_entries m n) o ≡ merge_entries m (merge_entries n o)
    → merge_value (merge_value (list m) (list n)) (list o)
      ≡ merge_value (list m) (merge_value (list n) (list o))
unfolding merge_value
merge_assoc-list m n o h = ap list h

mutual
  -- Merging is associative on values of one shape, whatever the shape.
  Fits-merge_assoc :
      (s : Shape) (x y z : Value)
      → Fits s x
      → Fits s y
      → Fits s z
      → merge_value (merge_value x y) z ≡ merge_value x (merge_value y z)
  Fits-merge_assoc leaf x y z fx fy fz =
      rw (merge-leaf (merge_value x y) z fz, merge-leaf y z fz, merge-leaf x z fz)
  Fits-merge_assoc (doc_of s) (doc a m) (doc b n) (doc d o) fx fy fz =
      merge_assoc-doc a b d m n o (AllFit-merge_assoc s (names-Respects s) m n o fx fy fz)
  Fits-merge_assoc (list_of s) (list m) (list n) (list o) fx fy fz =
      merge_assoc-list m n o (AllFit-merge_assoc s fx.0 m n o fx.1 fy.1 fz.1)
  Fits-merge_assoc _ _ _ _ fx fy fz = ground arith

  pub AllFit-merge_assoc :
      {c : Keyed} (s : Key c → Shape) (r : Respects c s) (m n o : Entries c)
      → AllFit s m
      → AllFit s n
      → AllFit s o
      → merge_entries (merge_entries m n) o ≡ merge_entries m (merge_entries n o)
  AllFit-merge_assoc s r m n end fm fn fo =
      merge-end (merge_entries m n) ∙ ap (merge_entries m) (sym (merge-end n))
  AllFit-merge_assoc s r m n (entry k v o) fm fn fo =
      merge-entry (merge_entries m n) k v o
      ∙ ap (λ t. merge_entries t o)
          (take_in-merge s r k v fo.1 m n fm fn
            (λ x w fx fw. Fits-merge_assoc (s k) x w v fx fw fo.1))
      ∙ AllFit-merge_assoc s r m (take_in k v n) o fm (take_in-AllFit s r k v fo.1 n fn) fo.2
      ∙ ap (merge_entries m) (sym (merge-entry n k v o))

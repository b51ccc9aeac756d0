-- ===== src/Crdt/Container.antt =====
-- Reading a container, and what is read after a write or a merge. `lookup` is `get` and `insert` the
-- `insert` of `HashMap` and `BTreeMap`.
use Prim.Native.Nat.Ordering.{eq}
use eidetica.Base.{◌≡◌, ◌≢◌, refl, ap, ◌∙◌, Option, none, some, arith}
use eidetica.Crdt.Key.{
  Keyed, Key, compare_key, compare_key_refl, eq_left-Key, eq_right-Key, lt_of_gt-Key,
}
use eidetica.Crdt.Value.{Value, Entries, end, entry}
use eidetica.Crdt.Merge.{upsert, merge_value, merge_entries}
use eidetica.Crdt.Merge.Upsert.{take_in, merge-end, merge-entry}
use eidetica.Crdt.Merge.Shape.{Above, Above-trans, Above-same, Above-upsert}

unfoldable pub lookup : {c : Keyed} → Key c → Entries c → Option Value
lookup k end = none
lookup {c} k (entry j w m) = elim (compare_key c k j) [ eq ↦ some w | _ ↦ lookup k m ]

unfoldable pub insert : {c : Keyed} → Key c → Value → Entries c → Entries c
unfolding upsert
insert k v m = upsert (λ _. v) v k m

-- the keys of a container ascend
abbrev pub IsOrdered : {c : Keyed} → Entries c → Type 0
IsOrdered end = Unit
IsOrdered (entry k v m) = Above k m × IsOrdered m

-- what a merge makes of the values, if any, that two containers hold at a key
abbrev pub merge_found : Option Value → Option Value → Option Value
merge_found none y = y
merge_found (some w) none = some w
merge_found (some w) (some v) = some (merge_value w v)

abbrev pub changed : (Value → Value) → Value → Option Value → Option Value
changed f v none = some v
changed f v (some w) = some (f w)

module _ {c : Keyed} where
  upsert-IsOrdered :
      (f : Value → Value) (v : Value) (k : Key c) (m : Entries c)
      → IsOrdered m
      → IsOrdered (upsert f v k m)
  unfolding upsert
  upsert-IsOrdered f v k end h = (tt, tt)
  upsert-IsOrdered f v k (entry j w m) h = ground (
    arith,
    upsert-IsOrdered f v k m,
    Above-upsert f v j k m,
    lt_of_gt-Key c k j,
    Above-trans k j m,
  )

  lookup-Above : (k : Key c) (m : Entries c) → Above k m → lookup k m ≡ none
  unfolding lookup
  lookup-Above k end a = refl
  lookup-Above k (entry j w m) a = ground (arith, lookup-Above k m)

  lookup-upsert_same :
      (f : Value → Value) (v : Value) (k j : Key c) (m : Entries c)
      → IsOrdered m
      → compare_key c j k ≡ eq
      → lookup j (upsert f v k m) ≡ changed f v (lookup j m)
  unfolding lookup upsert
  lookup-upsert_same f v k j end h e = ground arith
  lookup-upsert_same f v k j (entry i w m) h e = ground (
    arith,
    lookup-upsert_same f v k j m,
    eq_left-Key c j k i,
    Above-trans j i m,
    lookup-Above j m,
  )

  lookup-upsert_ne :
      (f : Value → Value) (v : Value) (k j : Key c) (m : Entries c)
      → compare_key c j k ≢ eq
      → lookup j (upsert f v k m) ≡ lookup j m
  unfolding lookup upsert
  lookup-upsert_ne f v k j end h = ground arith
  lookup-upsert_ne f v k j (entry i w m) h =
      ground (arith, lookup-upsert_ne f v k j m, eq_right-Key c k i j)

  -- a key reads back what was just written, in whatever container
  pub lookup-insert_self :
      (k : Key c) (v : Value) (m : Entries c) → lookup k (insert k v m) ≡ some v
  unfolding lookup insert
  lookup-insert_self k v end = ground (arith, compare_key_refl c k)
  lookup-insert_self k v (entry j w m) =
      ground (arith, compare_key_refl c k, lookup-insert_self k v m)

  pub lookup-insert_ne :
      (k j : Key c) (v : Value) (m : Entries c)
      → compare_key c j k ≢ eq
      → lookup j (insert k v m) ≡ lookup j m
  unfolding insert
  lookup-insert_ne k j v m h = lookup-upsert_ne (λ _. v) v k j m h

  insert-IsOrdered :
      (k : Key c) (v : Value) (m : Entries c) → IsOrdered m → IsOrdered (insert k v m)
  unfolding insert
  insert-IsOrdered k v m h = upsert-IsOrdered (λ _. v) v k m h

  merge-IsOrdered : (m n : Entries c) → IsOrdered m → IsOrdered (merge_entries m n)
  unfolding merge_value
  merge-IsOrdered m end h = h
  merge-IsOrdered m (entry k v n) h =
      merge-IsOrdered (upsert (λ w. merge_value w v) v k m) n
        (upsert-IsOrdered (λ w. merge_value w v) v k m h)

  lookup-merge_end :
      (j : Key c) (m : Entries c) → lookup j m ≡ merge_found (lookup j m) (lookup j end)
  unfolding lookup
  lookup-merge_end j m = ground arith

  lookup-merge_entry :
      (j k : Key c) (v : Value) (m n : Entries c)
      → IsOrdered m
      → IsOrdered (entry k v n)
      → merge_found (lookup j (take_in k v m)) (lookup j n)
        ≡ merge_found (lookup j m) (lookup j (entry k v n))
  unfolding lookup take_in
  lookup-merge_entry j k v m n hm hn =
      let f = λ (w : Value). merge_value w v in
      ground (
        arith,
        lookup-upsert_same f v k j m hm,
        lookup-upsert_ne f v k j m,
        Above-same j k n,
        lookup-Above j n,
      )

  -- A key of the merged container holds the merge of what the two hold there. The second may be
  -- walked in any order of its keys: the reading at one key depends on that key alone.
  lookup-merge :
      (j : Key c) (m n : Entries c)
      → IsOrdered m
      → IsOrdered n
      → lookup j (merge_entries m n) ≡ merge_found (lookup j m) (lookup j n)
  lookup-merge j m end hm hn = rw merge-end (lookup-merge_end j m)
  lookup-merge j m (entry k v n) hm hn =
      ap (lookup j) (merge-entry m k v n)
      ∙ lookup-merge j (take_in k v m) n
          (unfold take_in in upsert-IsOrdered (λ w. merge_value w v) v k m hm) hn.1
      ∙ lookup-merge_entry j k v m n hm hn

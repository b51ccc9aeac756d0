-- ===== src/Base/Sort.antt =====
-- `slice::sort_by`, the stable sort of the standard library, as an insertion sort.
use mathlib.Core.Path.{◌≡◌, refl, sym, subst, ap}
use mathlib.Core.Logic.{inl, inr}
use mathlib.Core.Bool.{Bool, true, false, ◌||◌}
use mathlib.Core.List.{List, [], ◌∷◌}
use native.Mathlib.Omega.{arith}
use Prim.Native.Nat.{Ordering}
use eidetica.Base.Lists.{any, All, All-map}
use Prim.Native.String.{String}
use eidetica.Base.Text.{str_eq, eq_iff}
use eidetica.Base.Tests.{if◌then◌else◌, Bool-cases}

-- `dedup`, which takes out what follows its like
abbrev pub dedup_after : String → List String → List String
dedup_after id [] = []
dedup_after id (next ∷ ids) =
    let rest = dedup_after next ids in if str_eq id next then rest else next ∷ rest

abbrev pub dedup : List String → List String
dedup [] = []
dedup (id ∷ ids) = id ∷ dedup_after id ids

abbrev pub has : String → List String → Bool
has v ids = any (λ id. str_eq id v) ids

has-same : (u v : String) (ids : List String) → str_eq u v ≡ true → has u ids ≡ has v ids
has-same u v ids h = ap (λ w. has w ids) ((eq_iff u v).0 h)

-- `dedup` drops no id altogether
has-dedup_after :
    (v x : String) (xs : List String)
    → (str_eq x v || has v (dedup_after x xs)) ≡ (str_eq x v || has v xs)
has-dedup_after v x [] = refl
has-dedup_after v x (y ∷ ys) = elim (Bool-cases (str_eq x y)) [
  | inl e ↦ rw e (
      subst (λ u. (str_eq u v || has v (dedup_after y ys)) ≡ (str_eq u v || has v (y ∷ ys)))
        (sym ((eq_iff x y).0 e)) (ground (arith, has-dedup_after v y ys)))
  | inr n ↦ rw n (ground (arith, has-dedup_after v y ys))
]

pub has-dedup : (v : String) (xs : List String) → has v (dedup xs) ≡ has v xs
has-dedup v [] = refl
has-dedup v (x ∷ xs) = has-dedup_after v x xs

-- `a <= b`, from how they compare
abbrev pub not_after : Ordering → Bool
not_after Ordering.gt = false
not_after Ordering.lt = true
not_after Ordering.eq = true

module _ {ℓ} {A : Type ℓ} (cmp : A → A → Ordering) where
  abbrev pub insert_sorted : A → List A → List A
  insert_sorted x [] = x ∷ []
  insert_sorted x (y ∷ ys) =
      let rest = insert_sorted x ys in if not_after (cmp x y) then x ∷ y ∷ ys else y ∷ rest

  abbrev pub sort_by : List A → List A
  sort_by [] = []
  sort_by (x ∷ xs) = insert_sorted x (sort_by xs)

  -- each item is not after any of the later ones
  abbrev pub Sorted : List A → Type ℓ
  Sorted [] = Unit
  Sorted (x ∷ xs) = All (λ y. not_after (cmp x y) ≡ true) xs × Sorted xs

  any-insert_sorted :
      (p : A → Bool) (x : A) (xs : List A) → any p (insert_sorted x xs) ≡ (p x || any p xs)
  any-insert_sorted p x [] = refl
  any-insert_sorted p x (y ∷ ys) = ground (arith, any-insert_sorted p x ys)

  -- sorting neither adds an item nor loses one
  pub any-sort_by : (p : A → Bool) (xs : List A) → any p (sort_by xs) ≡ any p xs
  any-sort_by p [] = refl
  any-sort_by p (x ∷ xs) = ground (arith, any-sort_by p xs, any-insert_sorted p x (sort_by xs))

  All-insert_sorted {κ} :
      (P : A → Type κ) (x : A) (xs : List A) → P x → All P xs → All P (insert_sorted x xs)
  All-insert_sorted P x [] px h = (px, tt)
  All-insert_sorted P x (y ∷ ys) px h = elim (Bool-cases (not_after (cmp x y))) [
    | inl e ↦ rw e (px, h)
    | inr e ↦ rw e (h.0, All-insert_sorted P x ys px h.1)
  ]

  pub All-sort_by {κ} : (P : A → Type κ) (xs : List A) → All P xs → All P (sort_by xs)
  All-sort_by P [] h = tt
  All-sort_by P (x ∷ xs) h = All-insert_sorted P x (sort_by xs) h.0 (All-sort_by P xs h.1)

  module _ (total : (a b : A) → not_after (cmp a b) ≡ false → not_after (cmp b a) ≡ true)
      (trans : (a b c : A)
        → not_after (cmp a b) ≡ true
        → not_after (cmp b c) ≡ true
        → not_after (cmp a c) ≡ true) where
    Sorted-insert_sorted : (x : A) (xs : List A) → Sorted xs → Sorted (insert_sorted x xs)
    Sorted-insert_sorted x [] h = (tt, tt)
    Sorted-insert_sorted x (y ∷ ys) h = elim (Bool-cases (not_after (cmp x y))) [
      | inl e ↦ rw e ((e, All-map (λ z. trans x y z e) ys h.0), h)
      | inr e ↦ rw e (
        All-insert_sorted (λ z. not_after (cmp y z) ≡ true) x ys (total x y e) h.0,
        Sorted-insert_sorted x ys h.1,
      )
    ]

    pub Sorted-sort_by : (xs : List A) → Sorted (sort_by xs)
    Sorted-sort_by [] = tt
    Sorted-sort_by (x ∷ xs) = Sorted-insert_sorted x (sort_by xs) (Sorted-sort_by xs)

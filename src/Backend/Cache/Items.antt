-- ===== src/Backend/Cache/Items.antt =====
-- Lists of items with the latest used first, as the cache of
-- crates/lib/src/backend/database/in_memory/cache.rs holds them: what is found, taken out and popped.
use eidetica.Base.{
  ℕ, suc, ◌+◌, List, [], ◌∷◌, Bool, true, false, ◌||◌, none, some, length, any, eq_iff, eq_refl,
  ◌≡◌, refl, ap, inl, inr, Bool-cases, arith,
}
use eidetica.Backend.Cache.{
  CacheScope, shared, user, CacheKey, Blob, Item, scope_eq, same_key, find_item, without, pop_last,
  size_or_zero,
}

scope_eq_refl : (a : CacheScope) → scope_eq a a ≡ true
scope_eq_refl shared = refl
scope_eq_refl (user a) = eq_refl a

pub same_key_refl : (k : CacheKey) → same_key k k ≡ true
unfolding same_key
same_key_refl k = ground (arith, scope_eq_refl k.0, eq_refl k.1, eq_refl k.2)

scope-eq : (a b : CacheScope) → scope_eq a b ≡ true → a ≡ b
scope-eq shared shared h = refl
scope-eq shared (user b) h = absurd (cc)
scope-eq (user a) shared h = absurd (cc)
scope-eq (user a) (user b) h = ap user ((eq_iff a b).0 h)

pub same_key-eq : (a b : CacheKey) → same_key a b ≡ true → a ≡ b
unfolding same_key
same_key-eq (s, i, n) (t, j, m) h =
    let p : s ≡ t = scope-eq s t (ground arith) in
    let q : i ≡ j = (eq_iff i j).0 (ground arith) in
    let r : n ≡ m = (eq_iff n m).0 (ground arith) in cc

abbrev pub has_key : CacheKey → List Item → Bool
has_key k items = any (λ item. same_key item.0 k) items

abbrev pub total : List Item → ℕ
total [] = 0
total (item ∷ items) = length item.1 + total items

-- no key twice
abbrev pub OneEach : List Item → Type 0
OneEach [] = Unit
OneEach (item ∷ items) = (has_key item.0 items ≡ false) × OneEach items

has_key-without :
    (k j : CacheKey) (items : List Item)
    → has_key j items ≡ false
    → has_key j (without k items) ≡ false
has_key-without k j [] h = h
has_key-without k j (item ∷ items) h = ground (arith, has_key-without k j items)

pub same_key_left : (a b c : CacheKey) → same_key a b ≡ true → same_key a c ≡ same_key b c
same_key_left a b c h = ap (λ k. same_key k c) (same_key-eq a b h)

has_key-same :
    (a b : CacheKey) (items : List Item) → same_key a b ≡ true → has_key a items ≡ has_key b items
has_key-same a b items h = ap (λ k. has_key k items) (same_key-eq a b h)

pub not-without : (k : CacheKey) (items : List Item) → has_key k (without k items) ≡ false
not-without k [] = refl
not-without k (item ∷ items) = ground (arith, not-without k items)

pub OneEach-without : (k : CacheKey) (items : List Item) → OneEach items → OneEach (without k items)
OneEach-without k [] h = tt
OneEach-without k (item ∷ items) h = elim (Bool-cases (same_key item.0 k)) [
  | inl y ↦ rw y (OneEach-without k items h.1)
  | inr n ↦ rw n (has_key-without k item.0 items h.0, OneEach-without k items h.1)
]

without-absent :
    (k : CacheKey) (items : List Item)
    → has_key k items ≡ false
    → total (without k items) ≡ total items
without-absent k [] h = refl
without-absent k (item ∷ items) h = ground (arith, without-absent k items)

pub find_item-absent :
    (k : CacheKey) (items : List Item) → has_key k items ≡ false → find_item k items ≡ none
find_item-absent k [] h = refl
find_item-absent k (item ∷ items) h = ground (arith, find_item-absent k items)

-- what is taken out for a key was counted
pub total-without :
    (k : CacheKey) (items : List Item)
    → OneEach items
    → total (without k items) + size_or_zero (find_item k items) ≡ total items
total-without k [] h = omega arith
total-without k (item ∷ items) h =
    ground (arith, total-without k items h.1, without-absent k items, has_key-same item.0 k items)

-- what is left when the item that was not used for longest is taken out
pub record Popped (before : List Item) (last : Item) (rest : List Item) : Type 0 where
  pub answer : pop_last before ≡ some (last, rest)
  pub bytes : total rest + length last.1 ≡ total before
  pub count : suc (length rest) ≡ length before
  pub keys : (k : CacheKey) → has_key k before ≡ (same_key last.0 k || has_key k rest)
  pub one_each : OneEach before → OneEach rest

pub pop_last-Popped :
    (item : Item) (items : List Item)
    → (last : Item) × (rest : List Item) × Popped (item ∷ items) last rest
pop_last-Popped item [] = (
  item,
  [],
  record {
    answer = refl;
    bytes = omega arith;
    count = omega arith;
    keys = λ k. refl;
    one_each = λ h. tt;
  },
)
pop_last-Popped item (next ∷ items) =
    let (last, rest, p) = pop_last-Popped next items in
    (
      last,
      item ∷ rest,
      record {
        answer = rw p.answer refl;
        bytes = omega (arith, p.bytes);
        count = omega (arith, p.count);
        keys = λ k. ground (arith, p.keys k);
        one_each = λ h. (ground (arith, p.keys item.0, h.0), p.one_each h.1);
      },
    )

-- with the key of the first item not among the others, the last of the others is not of that key
pub pop_last-first :
    (key : CacheKey) (v : Blob) (next : Item) (items : List Item)
    → OneEach ((key, v) ∷ (next ∷ items))
    → (last : Item) × (rest : List Item) × (pop_last ((key, v) ∷ (next ∷ items))
        ≡ some (last, (key, v) ∷ rest))
      × Popped (next ∷ items) last rest
      × (same_key last.0 key ≡ false)
pop_last-first key v next items one =
    let (last, rest, p) = pop_last-Popped next items in
    (last, rest, rw p.answer refl, p, ground (arith, p.keys key, one.0))

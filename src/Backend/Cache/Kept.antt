-- ===== src/Backend/Cache/Kept.antt =====
-- What the cache of crates/lib/src/backend/database/in_memory/cache.rs answers with after a call.
use eidetica.Base.{
  ℕ, zero, suc, ◌-◌, ◌<◌, String, List, [], ◌∷◌, true, false, Option, none, some, if◌then◌else◌,
  ltb, length, ◌≡◌, refl, sym, subst, ap, ◌∙◌, ◌⊎◌, inl, inr, Bool-cases, arith,
}
use eidetica.Backend.Cache.{
  CacheScope, CacheKey, Blob, Item, same_key, find_item, without, touch_as, pop_last, Lru,
  CrdtCache, get, evict, put,
}
use eidetica.Backend.Cache.Items.{
  has_key, same_key_refl, same_key_left, same_key-eq, not-without, pop_last-Popped,
}

same_key_both : (a b c : CacheKey) → same_key a c ≡ true → same_key b c ≡ true → same_key a b ≡ true
same_key_both a b c h g = subst (λ x. same_key a x ≡ true) (sym (same_key-eq b c g)) h

-- what is found without the items of a key
find_item-without :
    (k j : CacheKey) (items : List Item)
    → find_item j (without k items) ≡ (if same_key k j then none else find_item j items)
find_item-without k j [] = ground arith
find_item-without k j (item ∷ items) =
    ground (arith, find_item-without k j items, same_key_left item.0 k j, same_key_both item.0 k j)

-- What is found when the last item is taken out was found before.
find_item-last :
    (j : CacheKey) (b : Blob) (items : List Item) (last : Item) (rest : List Item)
    → pop_last items ≡ some (last, rest)
    → find_item j rest ≡ some b
    → find_item j items ≡ some b
find_item-last j b [] last rest e h = absurd (cc)
find_item-last j b (item ∷ []) last rest e h = let gone : rest ≡ [] = cc in absurd (cc (gone, h))
find_item-last j b (item ∷ (next ∷ items)) last rest e h =
    let (l, r, p) = pop_last-Popped next items in
    let left : rest ≡ item ∷ r = cc (e, p.answer) in
    let found : find_item j (item ∷ r) ≡ some b = ap (find_item j) (sym left) ∙ h in
    ground (arith, find_item-last j b (next ∷ items) l r p.answer, found)

find_item-touch_as :
    (k j : CacheKey) (items : List Item)
    → find_item j (touch_as k items (find_item k items)) ≡ find_item j items
find_item-touch_as k j items = touched (find_item k items) refl
  where
    touched :
        (found : Option Blob)
        → find_item k items ≡ found
        → find_item j (touch_as k items found) ≡ find_item j items
    touched none e = refl
    touched (some v) e = elim (Bool-cases (same_key k j)) [
      | inl y ↦ rw y (sym e ∙ ap (λ i. find_item i items) (same_key-eq k j y))
      | inr n ↦ rw n (find_item-without k j items ∙ rw n refl)
    ]

module _ (lru : Lru) where
  open lru use {Cache, items}

  -- a cache whose latest item is the one that was put, with no other item of its key
  record Latest (key : CacheKey) (v : Blob) (old : List Item) (s : CrdtCache lru) : Type 0 where
    others : List Item
    holds : items s.cache ≡ (key, v) ∷ others
    kept : (j : CacheKey) (b : Blob) → find_item j others ≡ some b → find_item j old ≡ some b

  evict-Latest :
      (fuel : ℕ) (key : CacheKey) (v : Blob) (rest : List Item) (s : CrdtCache lru)
      → items s.cache ≡ (key, v) ∷ rest
      → has_key key rest ≡ false
      → length rest < fuel
      → (t : CrdtCache lru) × (evict lru fuel key s ≡ some t) × Latest key v rest t
  unfolding evict
  evict-Latest zero key v rest s e c f = absurd (omega arith)
  evict-Latest (suc fuel) key v [] s e c f =
      elim (Bool-cases (ltb s.capacity_bytes s.current_bytes)) [
        | inl y ↦
            let (d, popped, ed) = lru.pop_some s.cache (key, v) [] (ap pop_last e) in
            (
              record s { cache = (lru.put_item key v d).1 },
              rw (y, popped, same_key_refl key) refl,
              record {
                others = [];
                holds =
                    lru.put_items key v d ∙ ap (λ (xs : List Item). (key, v) ∷ without key xs) ed;
                kept = λ j b h. h;
              },
            )
        | inr n ↦ (s, rw n refl, record { others = []; holds = e; kept = λ j b h. h })
      ]
  evict-Latest (suc fuel) key v (next ∷ rest) s e c f =
      elim (Bool-cases (ltb s.capacity_bytes s.current_bytes)) [
        | inl y ↦
            let (last, left, p) = pop_last-Popped next rest in
            let answer : pop_last ((key, v) ∷ (next ∷ rest)) ≡ some (last, (key, v) ∷ left) =
              rw p.answer refl in
            let (d, popped, ed) =
              lru.pop_some s.cache last ((key, v) ∷ left) (ap pop_last e ∙ answer) in
            let (t, ends, after) =
              evict-Latest fuel key v left
                (record s { cache = d; current_bytes = s.current_bytes - length last.1 }) ed
                (ground (arith, p.keys key)) (omega (arith, p.count)) in
            let other : same_key last.0 key ≡ false = ground (arith, p.keys key) in
            (
              t,
              rw (y, popped, other) ends,
              record {
                others = after.others;
                holds = after.holds;
                kept =
                    λ j b h. find_item-last j b (next ∷ rest) last left p.answer (after.kept j b h);
              },
            )
        | inr n ↦ (s, rw n refl, record { others = next ∷ rest; holds = e; kept = λ j b h. h })
      ]

  -- a read leaves what is found
  pub get-get :
      (k j : CacheKey) (s : CrdtCache lru)
      → (get lru j.0 j.1 j.2 (get lru k.0 k.1 k.2 s).1).0 ≡ (get lru j.0 j.1 j.2 s).0
  unfolding get
  get-get k j s =
      lru.get_value j (lru.get_item k s.cache).1
      ∙ (ap (find_item j) (lru.get_items k s.cache)
          ∙ (find_item-touch_as k j (items s.cache) ∙ sym (lru.get_value j s.cache)))

  -- `put` ends, whatever the cache holds and counts. What is found afterwards, under any scope, id
  -- and store, is the blob that was put, under its own scope, id and store, or was found under the
  -- same before.
  pub put-Latest :
      (scope : CacheScope) (id subtree : String) (blob : Blob) (s : CrdtCache lru)
      → (t : CrdtCache lru) × (put lru scope id subtree blob s ≡ some t)
        × ((get lru scope id subtree t).0 ≡ some blob)
        × ((j : CacheKey) (b : Blob)
            → (get lru j.0 j.1 j.2 t).0 ≡ some b
            → ((j ≡ (scope, id, subtree)) × (b ≡ blob)) ⊎ ((get lru j.0 j.1 j.2 s).0 ≡ some b))
  unfolding put get
  put-Latest scope id subtree blob s =
      let key : CacheKey = (scope, id, subtree) in
      let now = lru.put_items key blob s.cache in
      let (t, ends, after) =
        evict-Latest (length (items (lru.put_item key blob s.cache).1)) key blob
          (without key (items s.cache)) _ now (not-without key (items s.cache))
          (omega (arith, ap length now)) in
      (
        t,
        ends,
        lru.get_value key t.cache ∙ ap (find_item key) after.holds ∙ rw (same_key_refl key) refl,
        λ j b h.
            answers j b after.others (λ g. after.kept j b g)
              (sym (ap (find_item j) after.holds) ∙ (sym (lru.get_value j t.cache) ∙ h)),
      )
    where
      answers :
          (j : CacheKey) (b : Blob) (others : List Item)
          → (find_item j others ≡ some b
              → find_item j (without (scope, id, subtree) (items s.cache)) ≡ some b)
          → find_item j (((scope, id, subtree), blob) ∷ others) ≡ some b
          → ((j ≡ (scope, id, subtree)) × (b ≡ blob)) ⊎ ((lru.get_item j s.cache).0 ≡ some b)
      answers j b others kept h = elim (Bool-cases (same_key (scope, id, subtree) j)) [
        | inl y ↦ inl (sym (same_key-eq _ j y), cc (rw y at h))
        | inr n ↦
            let found = kept (rw n at h) in
            inr (
              lru.get_value j s.cache
              ∙ (sym (find_item-without (scope, id, subtree) j (items s.cache) ∙ rw n refl)
                  ∙ found))
      ]

-- ===== src/Backend/Cache/Bytes.antt =====
-- About the bytes that the cache of crates/lib/src/backend/database/in_memory/cache.rs counts.
use eidetica.Base.{
  ℕ, zero, suc, ◌+◌, ◌-◌, ◌≤◌, ◌<◌, String, List, [], ◌∷◌, false, Option, none, some, ltb, length,
  ◌≡◌, refl, sym, subst, ap, ◌∙◌, ◌⊎◌, inl, inr, Bool-cases, arith,
}
use eidetica.Backend.Cache.{
  CacheScope, CacheKey, Blob, Item, find_item, without, touch_as, pop_last, Lru, max_usize,
  saturating_add, size_or_zero, CrdtCache, get, evict, put, clear,
}
use eidetica.Backend.Cache.Items.{
  OneEach, total, Popped, same_key_refl, not-without, OneEach-without, total-without,
  pop_last-first,
}

-- the bytes after an item is replaced
counted_sum :
    {all : ℕ} (current old looked rest size : ℕ)
    → old ≡ looked
    → all ≡ size + rest
    → rest + looked ≡ current
    → current + size ≤ max_usize
    → saturating_add (current - old) size ≡ all
counted_sum current old looked rest size o a s room = ground arith

module _ (lru : Lru) where
  open lru use {Cache, items}

  -- the counted bytes are those of the items, each key has one item, and the sum is in range
  pub record Counted (s : CrdtCache lru) : Type 0 where
    pub bytes : s.current_bytes ≡ total (items s.cache)
    pub one_each : OneEach (items s.cache)

  -- what the loop leaves: the item that was just put, and others only within the capacity
  pub record Evicted (key : CacheKey) (v : Blob) (before after : CrdtCache lru) : Type 0 where
    pub counted : Counted after
    pub capacity : after.capacity_bytes ≡ before.capacity_bytes
    pub others : List Item
    pub holds : items after.cache ≡ (key, v) ∷ others
    pub bounded : (after.current_bytes ≤ after.capacity_bytes) ⊎ (others ≡ [])

  -- within the capacity nothing is evicted
  stay :
      (key : CacheKey) (v : Blob) (rest : List Item) (s : CrdtCache lru)
      → items s.cache ≡ (key, v) ∷ rest
      → Counted s
      → ltb s.capacity_bytes s.current_bytes ≡ false
      → Evicted key v s s
  stay key v rest s e c n = record {
    counted = c;
    capacity = refl;
    others = rest;
    holds = e;
    bounded = inl (ground arith);
  }

  -- the item that was just put is alone: it is put again
  put_again :
      (key : CacheKey) (v : Blob) (s : CrdtCache lru) (d : Cache)
      → items s.cache ≡ (key, v) ∷ []
      → items d ≡ []
      → Counted s
      → Evicted key v s (record s { cache = (lru.put_item key v d).1 })
  put_again key v s d e ed c =
      let alone : items (lru.put_item key v d).1 ≡ (key, v) ∷ [] =
        lru.put_items key v d ∙ ap (λ (xs : List Item). (key, v) ∷ without key xs) ed in
      record {
        counted = record {
          bytes = c.bytes ∙ ap total (e ∙ sym alone);
          one_each = subst OneEach (e ∙ sym alone) c.one_each;
        };
        capacity = refl;
        others = [];
        holds = alone;
        bounded = inr refl;
      }

  abbrev less : CrdtCache lru → Cache → Blob → CrdtCache lru
  less s d w = record s { cache = d; current_bytes = s.current_bytes - length w }

  less-Counted :
      (key : CacheKey) (v : Blob) (before rest : List Item) (last : Item) (s : CrdtCache lru)
      (d : Cache)
      → items s.cache ≡ (key, v) ∷ before
      → items d ≡ (key, v) ∷ rest
      → Popped before last rest
      → Counted s
      → Counted (less s d last.1)
  less-Counted key v before rest last s d e ed p c =
      let one : OneEach ((key, v) ∷ before) = subst OneEach e c.one_each in
      record {
        bytes = omega (arith, c.bytes, ap total e, ap total ed, p.bytes);
        one_each = subst OneEach (sym ed) (ground (arith, p.keys key, one.0), p.one_each one.1);
      }

  evict-Evicted :
      (fuel : ℕ) (key : CacheKey) (v : Blob) (rest : List Item) (s : CrdtCache lru)
      → items s.cache ≡ (key, v) ∷ rest
      → Counted s
      → length rest < fuel
      → (t : CrdtCache lru) × (evict lru fuel key s ≡ some t) × Evicted key v s t
  unfolding evict
  evict-Evicted zero key v rest s e c f = absurd (omega arith)
  evict-Evicted (suc fuel) key v [] s e c f =
      elim (Bool-cases (ltb s.capacity_bytes s.current_bytes)) [
        | inl y ↦
            let (d, popped, ed) = lru.pop_some s.cache (key, v) [] (ap pop_last e) in
            (_, rw (y, popped, same_key_refl key) refl, put_again key v s d e ed c)
        | inr n ↦ (s, rw n refl, stay key v [] s e c n)
      ]
  evict-Evicted (suc fuel) key v (next ∷ rest) s e c f =
      elim (Bool-cases (ltb s.capacity_bytes s.current_bytes)) [
        | inl y ↦
            let (last, left, answer, p, other) =
              pop_last-first key v next rest (subst OneEach e c.one_each) in
            let (d, popped, ed) =
              lru.pop_some s.cache last ((key, v) ∷ left) (ap pop_last e ∙ answer) in
            let (t, ends, after) =
              evict-Evicted fuel key v left (less s d last.1) ed
                (less-Counted key v (next ∷ rest) left last s d e ed p c)
                (omega (arith, p.count)) in
            (
              t,
              rw (y, popped, other) ends,
              record {
                counted = after.counted;
                capacity = after.capacity;
                others = after.others;
                holds = after.holds;
                bounded = after.bounded;
              },
            )
        | inr n ↦ (s, rw n refl, stay key v (next ∷ rest) s e c n)
      ]

  bound :
      (key : CacheKey) (v : Blob) {before after : CrdtCache lru}
      → Evicted key v before after
      → (after.current_bytes ≤ before.capacity_bytes) ⊎ (items after.cache ≡ (key, v) ∷ [])
  bound key v {before} {after} e = elim e.bounded [
    | inl y ↦ inl (omega (arith, e.capacity))
    | inr n ↦ inr (e.holds ∙ ap (λ (xs : List Item). (key, v) ∷ xs) n)
  ]

  -- the state in which `put` starts to evict
  abbrev started : CacheKey → Blob → CrdtCache lru → CrdtCache lru
  started key blob s =
      let after = lru.put_item key blob s.cache in
      record s {
        cache = after.1;
        current_bytes = saturating_add (s.current_bytes - size_or_zero after.0) (length blob);
      }

  started-Counted :
      (key : CacheKey) (blob : Blob) (s : CrdtCache lru)
      → Counted s
      → s.current_bytes + length blob ≤ max_usize
      → Counted (started key blob s)
  started-Counted key blob s c room =
      let old = lru.put_old key blob s.cache in
      let now = lru.put_items key blob s.cache in
      let sum = total-without key (items s.cache) c.one_each in
      record {
        bytes =
            counted_sum s.current_bytes _ _ _ (length blob) (ap size_or_zero old) (ap total now)
              (sum ∙ sym c.bytes) room;
        one_each =
            subst OneEach (sym now)
              (not-without key (items s.cache), OneEach-without key (items s.cache) c.one_each);
      }

  -- If the counted bytes are those of the items, with one item for a key, and the new blob does not
  -- take the count over usize, then the eviction loop of `put` ends, the count is right again, the
  -- blob can be read back, and the count is within the capacity unless the new blob is the only
  -- item.
  pub put-Evicted :
      (scope : CacheScope) (id subtree : String) (blob : Blob) (s : CrdtCache lru)
      → Counted s
      → s.current_bytes + length blob ≤ max_usize
      → (t : CrdtCache lru) × (put lru scope id subtree blob s ≡ some t)
        × Counted t
        × ((get lru scope id subtree t).0 ≡ some blob)
        × ((t.current_bytes ≤ s.capacity_bytes)
            ⊎ (items t.cache ≡ ((scope, id, subtree), blob) ∷ []))
  unfolding put get
  put-Evicted scope id subtree blob s c room =
      let key : CacheKey = (scope, id, subtree) in
      let began = started key blob s in
      let now = lru.put_items key blob s.cache in
      let (t, ends, after) =
        evict-Evicted (length (items began.cache)) key blob (without key (items s.cache)) began now
          (started-Counted key blob s c room) (omega (arith, ap length now)) in
      (
        t,
        ends,
        after.counted,
        lru.get_value key t.cache ∙ ap (find_item key) after.holds ∙ rw (same_key_refl key) refl,
        bound key blob after,
      )

  touch-bytes :
      (k : CacheKey) (xs : List Item) (found : Option Blob)
      → found ≡ find_item k xs
      → OneEach xs
      → (total (touch_as k xs found) ≡ total xs) × OneEach (touch_as k xs found)
  touch-bytes k xs none e one = (refl, one)
  touch-bytes k xs (some v) e one = (
    omega (arith, total-without k xs one, ap size_or_zero e),
    (not-without k xs, OneEach-without k xs one),
  )

  -- reading the cache, and clearing it
  get-Counted :
      (scope : CacheScope) (id subtree : String) (s : CrdtCache lru)
      → Counted s
      → Counted (get lru scope id subtree s).1
  unfolding get
  get-Counted scope id subtree s c =
      let key : CacheKey = (scope, id, subtree) in
      let now = lru.get_items key s.cache in
      let (sum, one) =
        touch-bytes key (items s.cache) (find_item key (items s.cache)) refl c.one_each in
      record { bytes = c.bytes ∙ sym (ap total now ∙ sum); one_each = subst OneEach (sym now) one }

  clear-Counted : (s : CrdtCache lru) → Counted (clear lru s)
  unfolding clear
  clear-Counted s = record {
    bytes = sym (ap total (lru.clear_items s.cache));
    one_each = subst OneEach (sym (lru.clear_items s.cache)) tt;
  }

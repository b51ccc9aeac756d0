-- ===== src/Backend/Cache.antt =====
-- The cache of CRDT states, `InMemoryCrdtCache` of
-- crates/lib/src/backend/database/in_memory/cache.rs, and `CacheScope` of crates/lib/src/backend/mod.rs.
pub mod Items
pub mod Bytes
pub mod Kept
use eidetica.Base.{
  ℕ, zero, suc, ◌+◌, ◌-◌, ◌*◌, ◌^◌, String, List, [], ◌∷◌, Bool, true, false, not, ◌&&◌, Option,
  none, some, if◌then◌else◌, ltb, leb, length, keep, str_eq, ◌≡◌,
}

pub data CacheScope : Type 0 where
  shared : CacheScope
  user : String → CacheScope

-- A blob is the list of its bytes.
abbrev pub CacheKey : Type 0
CacheKey = CacheScope × String × String

abbrev pub Blob : Type 0
Blob = List ℕ

abbrev pub Item : Type 0
Item = CacheKey × Blob

abbrev pub scope_eq : CacheScope → CacheScope → Bool
scope_eq shared shared = true
scope_eq shared (user b) = false
scope_eq (user a) shared = false
scope_eq (user a) (user b) = str_eq a b

unfoldable pub same_key : CacheKey → CacheKey → Bool
same_key a b = scope_eq a.0 b.0 && (str_eq a.1 b.1 && str_eq a.2 b.2)

-- The items of a cache with the latest used first: what is found, what is left without a key, and the
-- item that was not used for longest.
abbrev pub find_item : CacheKey → List Item → Option Blob
find_item k [] = none
find_item k (item ∷ items) =
    let rest = find_item k items in if same_key item.0 k then some item.1 else rest

abbrev pub without : CacheKey → List Item → List Item
without k items = keep (λ item. not (same_key item.0 k)) items

abbrev pub touch_as : CacheKey → List Item → Option Blob → List Item
touch_as k items none = items
touch_as k items (some v) = (k, v) ∷ without k items

abbrev pub add_before : Item → Option (Item × List Item) → Option (Item × List Item)
add_before item none = some (item, [])
add_before item (some (last, items)) = some (last, item ∷ items)

abbrev pub pop_last : List Item → Option (Item × List Item)
pop_last [] = none
pop_last (item ∷ items) = add_before item (pop_last items)

-- `LruCache` of the crate lru, unbounded, by its documentation: `put` and `get` make an item the latest
-- used, and `pop_lru` takes the one that was not used for longest.
pub record Lru : Type 1 where
  pub Cache : Type 0
  pub items : Cache → List Item
  pub new : Cache
  pub clear_all : Cache → Cache
  pub get_item : CacheKey → Cache → Option Blob × Cache
  pub put_item : CacheKey → Blob → Cache → Option Blob × Cache
  pub pop_lru : Cache → Option (Item × Cache)
  pub items_new : items new ≡ []
  pub clear_items : (c : Cache) → items (clear_all c) ≡ []
  pub get_value : (k : CacheKey) (c : Cache) → (get_item k c).0 ≡ find_item k (items c)
  pub get_items :
      (k : CacheKey) (c : Cache)
      → items (get_item k c).1 ≡ touch_as k (items c) (find_item k (items c))
  pub put_old : (k : CacheKey) (v : Blob) (c : Cache) → (put_item k v c).0 ≡ find_item k (items c)
  pub put_items :
      (k : CacheKey) (v : Blob) (c : Cache)
      → items (put_item k v c).1 ≡ (k, v) ∷ without k (items c)
  pub pop_none : (c : Cache) → pop_last (items c) ≡ none → pop_lru c ≡ none
  pub pop_some :
      (c : Cache) (item : Item) (rest : List Item)
      → pop_last (items c) ≡ some (item, rest)
      → (d : Cache) × (pop_lru c ≡ some (item, d)) × (items d ≡ rest)

-- `usize` arithmetic
abbrev pub max_usize : ℕ
max_usize = 2 ^ 64 - 1

abbrev pub saturating_add : ℕ → ℕ → ℕ
saturating_add a b = if leb (a + b) max_usize then a + b else max_usize

abbrev pub default_capacity_bytes : ℕ
default_capacity_bytes = 256 * 1024 * 1024

abbrev pub size_or_zero : Option Blob → ℕ
size_or_zero none = 0
size_or_zero (some v) = length v

module _ (lru : Lru) where
  pub record CrdtCache : Type 0 where
    pub cache : lru.Cache
    pub current_bytes : ℕ
    pub capacity_bytes : ℕ

  unfoldable pub with_capacity_bytes : ℕ → CrdtCache
  with_capacity_bytes n = record { cache = lru.new; current_bytes = 0; capacity_bytes = n }

  unfoldable pub get : CacheScope → String → String → CrdtCache → Option Blob × CrdtCache
  get scope id subtree s =
      let found = lru.get_item (scope, id, subtree) s.cache in
      (found.0, record s { cache = found.1 })

  -- what the loop goes on with: the key that was just put is kept, and ends it
  abbrev pub evict_next :
      CacheKey
      → CrdtCache
      → (CrdtCache → Option CrdtCache)
      → Option (Item × lru.Cache)
      → Option CrdtCache
  evict_next key s others none = some s
  evict_next key s others (some (item, c)) =
      if same_key item.0 key
      then some (record s { cache = (lru.put_item item.0 item.1 c).1 })
      else others (record s { cache = c; current_bytes = s.current_bytes - length item.1 })

  -- the loop that evicts; `None` when the fuel runs out
  unfoldable pub evict : ℕ → CacheKey → CrdtCache → Option CrdtCache
  evict zero key s = if ltb s.capacity_bytes s.current_bytes then none else some s
  evict (suc fuel) key s =
      if ltb s.capacity_bytes s.current_bytes
      then evict_next key s (evict fuel key) (lru.pop_lru s.cache)
      else some s

  unfoldable pub put : CacheScope → String → String → Blob → CrdtCache → Option CrdtCache
  unfolding evict
  put scope id subtree blob s =
      let key : CacheKey = (scope, id, subtree) in
      let after = lru.put_item key blob s.cache in
      let bytes = saturating_add (s.current_bytes - size_or_zero after.0) (length blob) in
      evict (length (lru.items after.1)) key (record s { cache = after.1; current_bytes = bytes })

  unfoldable pub clear : CrdtCache → CrdtCache
  clear s = record s { cache = lru.clear_all s.cache; current_bytes = 0 }

-- ===== src/Transaction/State/InMemory.antt =====
-- The cache of states over the in-memory backend's: `get_cached_crdt_state` and `cache_crdt_state` of
-- crates/lib/src/backend/database/in_memory/cache.rs, as crates/lib/src/transaction/mod.rs calls them.
use eidetica.Base.{ℕ, String, List, Option, none, some, ◌≡◌, ◌⊎◌, inl, inr, refl, sym, ap, ◌∙◌}
use eidetica.Backend.Cache.{
  CacheScope, CacheKey, Blob, Lru, CrdtCache, get, put, with_capacity_bytes, find_item,
}
use eidetica.Backend.Cache.Kept.{get-get, put-Latest}
use eidetica.Entry.{Entry}
use eidetica.Entry.Order.{IdOrder}
use eidetica.Backend.Storage.{InMemoryInner}
use eidetica.Transaction.State.{Crdt, Encryptor, StateCache}
use eidetica.Transaction.State.Cached.{Honest}

-- Texts stand for their bytes.
module _ (lru : Lru) (scope : CacheScope) (bytes_of : String → Blob)
    (text_of : Blob → Option String)
    (text_of-bytes_of : (s : String) → text_of (bytes_of s) ≡ some s) where
  abbrev pub text_of_blob : Option Blob → Option String
  text_of_blob none = none
  text_of_blob (some blob) = text_of blob

  -- `put-Latest` shows that `put` ends.
  abbrev pub ended_or : CrdtCache lru → Option (CrdtCache lru) → CrdtCache lru
  ended_or s none = s
  ended_or s (some t) = t

  unfoldable pub get_cached_crdt_state :
      String → String → CrdtCache lru → Option String × CrdtCache lru
  unfolding get
  get_cached_crdt_state id name s =
      let found = get lru scope id name s in (text_of_blob found.0, found.1)

  unfoldable pub cache_crdt_state : String → String → String → CrdtCache lru → CrdtCache lru
  unfolding put
  cache_crdt_state id name text s = ended_or s (put lru scope id name (bytes_of text) s)

  of_blob :
      (o : Option Blob) (b : String)
      → text_of_blob o ≡ some b
      → (blob : Blob) × (o ≡ some blob) × (text_of blob ≡ some b)
  of_blob none b h = absurd (cc)
  of_blob (some blob) b h = (blob, refl, h)

  pub get_kept :
      (i n j m : String) (c : CrdtCache lru) (b : String)
      → (get_cached_crdt_state j m (get_cached_crdt_state i n c).1).0 ≡ some b
      → (get_cached_crdt_state j m c).0 ≡ some b
  unfolding get_cached_crdt_state
  get_kept i n j m c b h = sym (ap text_of_blob (get-get lru (scope, i, n) (scope, j, m) c)) ∙ h

  pub put_kept :
      (i n j m : String) (c : CrdtCache lru) (w b : String)
      → (get_cached_crdt_state j m (cache_crdt_state i n w c)).0 ≡ some b
      → ((j ≡ i) × (m ≡ n) × (b ≡ w)) ⊎ ((get_cached_crdt_state j m c).0 ≡ some b)
  unfolding get_cached_crdt_state cache_crdt_state
  put_kept i n j m c w b h =
      let (t, ends, read, kept) = put-Latest lru scope i n (bytes_of w) c in
      let after : text_of_blob (get lru scope j m t).0 ≡ some b =
        sym (ap (λ o. text_of_blob (get lru scope j m (ended_or c o)).0) ends) ∙ h in
      let (blob, found, read_as) = of_blob _ b after in
      elim (kept (scope, j, m) blob found) [
        | inl (key, same) ↦ inl (
          ap (λ (k : CacheKey). k.1) key,
          ap (λ (k : CacheKey). k.2) key,
          cc (read_as, ap text_of same, text_of-bytes_of w),
        )
        | inr old ↦ inr (ap text_of_blob old ∙ read_as)
      ]

  -- the cache of states that a transaction has
  abbrev pub in_memory_states : StateCache
  in_memory_states = record {
    Cache = CrdtCache lru;
    get_cached = get_cached_crdt_state;
    cache_state = cache_crdt_state;
    get_kept = get_kept;
    put_kept = put_kept;
  }

  -- a new cache holds no state that is wrong
  new-Honest :
      (id_of : Entry → String) (order : IdOrder) (from_bytes : String → String) {T : Type 0}
      (crdt : Crdt T) (encryptors : List (String × Encryptor)) (tree name : String)
      (s : InMemoryInner) (n : ℕ)
      → Honest id_of order from_bytes in_memory_states crdt encryptors tree name s
          (with_capacity_bytes lru n)
  unfolding get_cached_crdt_state get with_capacity_bytes
  new-Honest id_of order from_bytes crdt encryptors tree name s n key bytes h =
      let empty = lru.get_value (scope, key, name) lru.new ∙ ap (find_item _) lru.items_new in
      absurd (cc (sym (ap text_of_blob empty) ∙ h))

-- ===== src/Backend/Tests/Caching.antt =====
-- The theorems on the cache of CRDT states, with a cache that is the list of its items.
use eidetica.Base.{◌≤◌, List, [], ◌∷◌, some, ◌≡◌, ◌⊎◌, refl, arith}
use eidetica.Backend.Cache.Kept.{put-Latest}
use eidetica.Backend.Cache.{
  CacheKey, Blob, shared, Item, find_item, without, touch_as, pop_last, Lru, CrdtCache, get, put,
}
use eidetica.Backend.Cache.Bytes.{Counted, put-Evicted}

pop_some_list :
    (c : List Item) (item : Item) (rest : List Item)
    → pop_last c ≡ some (item, rest)
    → (d : List Item) × (pop_last c ≡ some (item, d)) × (d ≡ rest)
pop_some_list c item rest h = (rest, h, refl)

abbrev list_lru : Lru
list_lru = record {
  Cache = List Item;
  items = λ c. c;
  new = [];
  clear_all = λ c. [];
  get_item = λ k c. (find_item k c, touch_as k c (find_item k c));
  put_item = λ k v c. (find_item k c, (k, v) ∷ without k c);
  pop_lru = pop_last;
  items_new = refl;
  clear_items = λ c. refl;
  get_value = λ k c. refl;
  get_items = λ k c. refl;
  put_old = λ k v c. refl;
  put_items = λ k v c. refl;
  pop_none = λ c h. h;
  pop_some = pop_some_list;
}

abbrev start : CrdtCache list_lru
start = record { cache = []; current_bytes = 0; capacity_bytes = 2 }

start-Counted : Counted list_lru start
start-Counted = record { bytes = refl; one_each = tt }

put-Evicted_example :
    (t : CrdtCache list_lru) × (put list_lru shared "A" "notes" (7 ∷ (8 ∷ (9 ∷ []))) start ≡ some t)
    × Counted list_lru t
    × ((get list_lru shared "A" "notes" t).0 ≡ some (7 ∷ (8 ∷ (9 ∷ []))))
    × ((t.current_bytes ≤ 2) ⊎ (t.cache ≡ ((shared, "A", "notes"), 7 ∷ (8 ∷ (9 ∷ []))) ∷ []))
put-Evicted_example =
    put-Evicted list_lru shared "A" "notes" (7 ∷ (8 ∷ (9 ∷ []))) start start-Counted (omega arith)

-- a cache that must evict
abbrev full : CrdtCache list_lru
full = record {
  cache = ((shared, "B", "notes"), 1 ∷ (2 ∷ [])) ∷ [];
  current_bytes = 2;
  capacity_bytes = 2;
}

put-Latest_example :
    (t : CrdtCache list_lru) × (put list_lru shared "A" "notes" (7 ∷ []) full ≡ some t)
    × ((get list_lru shared "A" "notes" t).0 ≡ some (7 ∷ []))
    × ((j : CacheKey) (b : Blob)
        → (get list_lru j.0 j.1 j.2 t).0 ≡ some b
        → ((j ≡ (shared, "A", "notes")) × (b ≡ 7 ∷ []))
          ⊎ ((get list_lru j.0 j.1 j.2 full).0 ≡ some b))
put-Latest_example = put-Latest list_lru shared "A" "notes" (7 ∷ []) full

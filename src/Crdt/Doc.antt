-- ===== src/Crdt/Doc.antt =====
-- `Doc` of crates/lib/src/crdt/doc/mod.rs: reading and writing by key or by dotted path.
pub mod Laws
pub mod Sibling
use eidetica.Base.{
  ℕ, zero, suc, String, List, [], ◌∷◌, ◌++◌, Bool, true, false, not, Option, none, some, length,
  if◌then◌else◌, parse_usize, ℤ,
}
use eidetica.Crdt.Key.{by_name, by_position, Keyed}
use eidetica.Crdt.Value.{
  Value, null, bool, int, text, doc, list, deleted, Entries, end, entry, Doc, is_deleted, as_text,
  as_int,
}
use eidetica.Crdt.Container.{lookup, insert}
use eidetica.Crdt.Path.{contains_dot, components}

-- `Doc::new` and `Doc::atomic`
abbrev pub new : Doc
new = record { atomic = false; children = end }

abbrev pub atomic : Doc
atomic = record { atomic = true; children = end }

-- the values that are no tombstones, in order
unfoldable pub live : {c : Keyed} → Entries c → List Value
live end = []
live (entry k v m) = let rest = live m in if is_deleted v then rest else v ∷ rest

-- `Doc::len`, `Doc::is_empty`
unfoldable pub len : Doc → ℕ
unfolding live
len d = length (live d.children)

all_deleted : Entries by_name → Bool
all_deleted end = true
all_deleted (entry k v m) = let rest = all_deleted m in if is_deleted v then rest else false

unfoldable pub is_empty : Doc → Bool
unfolding all_deleted
is_empty d = all_deleted d.children

unfoldable pub nth : ℕ → List Value → Option Value
nth i [] = none
nth zero (v ∷ vs) = some v
nth (suc i) (v ∷ vs) = nth i vs

-- `List::get`
unfoldable pub list_get : Entries by_position → ℕ → Option Value
unfolding live nth
list_get l i = nth i (live l)

abbrev pub and_then : Option Value → (Value → Option Value) → Option Value
and_then none f = none
and_then (some v) f = f v

-- the loop of `get_raw` over the segments behind the first
unfoldable pub follow : List String → Value → Option Value
unfolding list_get
follow [] v = some v
follow (s ∷ rest) (doc a m) = and_then (lookup s m) (follow rest)
follow (s ∷ rest) (list l) = elim (parse_usize s) [
  | none ↦ none
  | some i ↦ and_then (list_get l i) (follow rest)
]
follow (s ∷ rest) _ = none

unfoldable pub get_segments : List String → Entries by_name → Option Value
get_segments [] m = none
get_segments (s ∷ rest) m = and_then (lookup s m) (follow rest)

unfoldable pub get_raw : String → Doc → Option Value
unfolding get_segments follow
get_raw key d =
    if contains_dot key then get_segments (components key) d.children else lookup key d.children

-- what a reader sees of a stored value: a tombstone is nothing
abbrev pub shown : Option Value → Option Value
shown none = none
shown (some deleted) = none
shown (some v) = some v

unfoldable pub get : String → Doc → Option Value
unfolding get_raw
get key d = shown (get_raw key d)

unfoldable pub is_tombstone : String → Doc → Bool
unfolding get_raw
is_tombstone key d = elim (get_raw key d) [ none ↦ false | some v ↦ is_deleted v ]

unfoldable pub contains_key : String → Doc → Bool
unfolding get
contains_key key d = elim (get key d) [ none ↦ false | some v ↦ true ]

-- `get_as::<&str>`
unfoldable pub get_text : String → Doc → Option String
unfolding get
get_text key d = elim (get key d) [ none ↦ none | some v ↦ as_text v ]

-- `get_as::<i64>`
unfoldable pub get_int : String → Doc → Option ℤ
unfolding get
get_int key d = elim (get key d) [ none ↦ none | some v ↦ as_int v ]

-- the document that `set` walks into: what is there, or an empty one in place of anything else
abbrev pub open_child : Option Value → Doc
open_child (some (doc a m)) = record { atomic = a; children = m }
open_child _ = new

-- the writes of `set` along its segments, and the old value at their end
unfoldable pub set_segments : List String → Value → Entries by_name → Option Value × Entries by_name
set_segments [] v m = (none, m)
set_segments (s ∷ []) v m = (shown (lookup s m), insert s v m)
set_segments (s ∷ t ∷ rest) v m =
    let child = open_child (lookup s m) in
    let (old, children) = set_segments (t ∷ rest) v child.children in
    (old, insert s (doc child.atomic children) m)

-- `Doc::set` returns the old value and leaves the document changed.
unfoldable pub set : String → Value → Doc → Option Value × Doc
unfolding set_segments
set key v d =
    let (old, children) =
      if contains_dot key
      then set_segments (components key) v d.children
      else set_segments (key ∷ []) v d.children in
    (old, record d { children = children })

-- `Doc::remove`
unfoldable pub remove : String → Doc → Option Value × Doc
unfolding set
remove key d = set key deleted d

-- ===== src/Crdt/Doc/Laws.antt =====
-- About `Doc::get`, `Doc::set` and `Doc::remove` of crates/lib/src/crdt/doc/mod.rs.
use eidetica.Base.{
  String, List, [], ◌∷◌, Bool, true, false, not, ◌||◌, Option, none, some, ◌≡◌, ◌≢◌, refl, sym, ap,
  ◌∙◌, ◌⊎◌, arith, if◌then◌else◌, inl, inr, Bool-cases, eq_of_compare_text,
}
use eidetica.Crdt.Key.{by_name}
use eidetica.Crdt.Value.{Value, doc, list, deleted, Entries, Doc}
use eidetica.Crdt.Container.{lookup, lookup-insert_self, lookup-insert_ne}
use eidetica.Crdt.Path.{contains_dot, components}
use eidetica.Crdt.Doc.{
  get_segments, follow, get_raw, get, is_tombstone, set_segments, set, remove, shown, open_child,
  and_then,
}

-- A key names a place, unless it is made of dots alone.
abbrev pub has_part : List String → Bool
has_part [] = false
has_part (s ∷ rest) = true

abbrev pub addressable : String → Bool
addressable key = not (contains_dot key) || has_part (components key)

get-set_segments :
    (segments : List String) (v : Value) (m : Entries by_name)
    → get_segments segments (set_segments segments v m).1
      ≡ (if has_part segments then some v else none)
unfolding get_segments follow set_segments
get-set_segments [] v m = refl
get-set_segments (s ∷ []) v m = rw (lookup-insert_self s v m)
get-set_segments (s ∷ t ∷ rest) v m =
    let child = open_child (lookup s m) in
    let inner = set_segments (t ∷ rest) v child.children in
    rw (lookup-insert_self s (doc child.atomic inner.1) m)
      (get-set_segments (t ∷ rest) v child.children)

-- What is stored under a key after `set`.
pub get_raw-set :
    (key : String) (v : Value) (d : Doc)
    → get_raw key (set key v d).1 ≡ (if addressable key then some v else none)
unfolding get_raw set
get_raw-set key v d = elim (Bool-cases (contains_dot key)) [
  | inl e ↦ rw e (get-set_segments (components key) v d.children)
  | inr e ↦ rw e (lookup-insert_self key v d.children)
]

set_no_parts :
    (segments : List String) (v : Value) (m : Entries by_name)
    → has_part segments ≡ false
    → set_segments segments v m ≡ (none, m)
unfolding set_segments
set_no_parts [] v m h = refl
set_no_parts (s ∷ rest) v m h = absurd (cc)

set_dots :
    (key : String) (v : Value) (d : Doc)
    → contains_dot key ≡ true
    → has_part (components key) ≡ false
    → set key v d ≡ (none, d)
unfolding set
set_dots key v d dotted none_there =
    rw (dotted, set_no_parts (components key) v d.children none_there) refl

-- For every key that names a place, `set` stores the value there, tombstone or not, for `get_raw` to
-- read. For every other key, which is of dots alone, `set` leaves the document as it is and answers
-- with no old value.
pub set-get_raw :
    (key : String) (v : Value) (d : Doc)
    → ((addressable key ≡ true) × (get_raw key (set key v d).1 ≡ some v))
      ⊎ ((addressable key ≡ false) × (set key v d ≡ (none, d)))
set-get_raw key v d = elim (Bool-cases (contains_dot key)) [
  | inr e ↦ let a : addressable key ≡ true = rw e refl in inl (a, get_raw-set key v d ∙ rw a refl)
  | inl e ↦ elim (Bool-cases (has_part (components key))) [
    | inl p ↦
        let a : addressable key ≡ true = rw (e, p) refl in inl (a, get_raw-set key v d ∙ rw a refl)
    | inr p ↦ inr (rw (e, p) refl, set_dots key v d e p)
  ]
]

-- `get` after `set` sees the value unless it is a tombstone; after `remove` it sees nothing, and the
-- key is a tombstone just if it names a place.
pub get-set :
    (key : String) (v : Value) (d : Doc)
    → (get key (set key v d).1 ≡ (if addressable key then shown (some v) else none))
      × (get key (remove key d).1 ≡ none)
      × (is_tombstone key (remove key d).1 ≡ addressable key)
unfolding get is_tombstone remove
get-set key v d = ground (arith, get_raw-set key v d, get_raw-set key deleted d)

-- What is found below the document that `set` walks into was reached by `get` before.
follow-open_child :
    (s : String) (rest : List String) (x : Option Value) (o : Value)
    → shown (get_segments (s ∷ rest) (open_child x).children) ≡ some o
    → shown (and_then x (follow (s ∷ rest))) ≡ some o
unfolding get_segments follow lookup
follow-open_child s rest none o h = h
follow-open_child s rest (some (doc a m)) o h = h
follow-open_child s rest (some (list l)) o h = cc
follow-open_child s rest _ o h = h

set_segments-old :
    (segments : List String) (v : Value) (m : Entries by_name) (o : Value)
    → (set_segments segments v m).0 ≡ some o
    → shown (get_segments segments m) ≡ some o
unfolding get_segments follow set_segments
set_segments-old [] v m o h = cc
set_segments-old (s ∷ []) v m o h = ground arith
set_segments-old (s ∷ t ∷ rest) v m o h =
    follow-open_child t rest (lookup s m) o
      (set_segments-old (t ∷ rest) v (open_child (lookup s m)).children o h)

-- the keys that a walk to a place passes through
unfoldable pub walk : String → List String
walk key = if contains_dot key then components key else key ∷ []

and_then_some : (x : Option Value) → and_then x (follow []) ≡ x
unfolding follow
and_then_some none = refl
and_then_some (some v) = refl

pub get_raw-walk : (key : String) (d : Doc) → get_raw key d ≡ get_segments (walk key) d.children
unfolding get_raw walk
get_raw-walk key d = elim (Bool-cases (contains_dot key)) [
  | inl e ↦ rw e
  | inr e ↦ rw e (sym (and_then_some (lookup key d.children)))
]

pub children-set :
    (key : String) (v : Value) (d : Doc)
    → ((set key v d).1.children ≡ (set_segments (walk key) v d.children).1)
      × ((set key v d).0 ≡ (set_segments (walk key) v d.children).0)
unfolding set walk
children-set key v d = ground arith

-- Two walks that part at their first key.
abbrev pub Apart : List String → List String → Type 0
Apart [] _ = Unit
Apart (s ∷ r) [] = Unit
Apart (s ∷ r) (t ∷ q) = s ≢ t

get-set_segments_ne :
    (ps qs : List String) (v : Value) (m : Entries by_name)
    → Apart ps qs
    → get_segments qs (set_segments ps v m).1 ≡ get_segments qs m
unfolding get_segments set_segments
get-set_segments_ne [] qs v m h = refl
get-set_segments_ne (s ∷ []) [] v m h = refl
get-set_segments_ne (s ∷ []) (t ∷ q) v m h =
    rw (lookup-insert_ne s t v m (λ e. h (sym (eq_of_compare_text t s e))))
get-set_segments_ne (s ∷ p ∷ r) [] v m h = refl
get-set_segments_ne (s ∷ p ∷ r) (t ∷ q) v m h =
    rw (lookup-insert_ne s t _ m (λ e. h (sym (eq_of_compare_text t s e))))

-- `set` changes nothing that `get_raw` reads under a key that parts from it at the first step.
pub get_raw-set_ne :
    (key other : String) (v : Value) (d : Doc)
    → Apart (walk key) (walk other)
    → get_raw other (set key v d).1 ≡ get_raw other d
get_raw-set_ne key other v d h =
    get_raw-walk other (set key v d).1
    ∙ ap (get_segments (walk other)) (children-set key v d).0
    ∙ get-set_segments_ne (walk key) (walk other) v d.children h
    ∙ sym (get_raw-walk other d)

-- ===== src/Store/Tests.antt =====
-- The theorems on transactions and stores, at a tree with one entry that wrote a note.
pub mod Rows
pub mod Tables
mod States
pub mod Opening
use Prim.Native.Char.{code}
use eidetica.Base.{
  ℕ, String, List, [], ◌∷◌, Bool, true, false, ◌&&◌, Option, none, some, ◌==◌, if◌then◌else◌,
  str_eq, eq_iff, cons-nil_lem, ◌≡◌, ◌⊎◌, refl, sym, subst, ap, ◌∙◌, Bool-cases, inl, inr, arith,
}
use eidetica.Base.Outcome.{Outcome, ok, err}
use eidetica.Crdt.Key.{by_name, Key}
use eidetica.Crdt.Value.{Value, null, bool, int, list, text, deleted, doc, Entries, end, entry, Doc}
use eidetica.Entry.{Entry}
use eidetica.Store.Codec.{DocJson}
use eidetica.Transaction.State.{StateCache}

-- a cache that is searched for what was put last
abbrev pub Items : Type 0
Items = List (String × (String × String))

unfoldable pub find_state : String → String → Items → Option String
find_state j m [] = none
find_state j m ((i, (n, w)) ∷ c) =
    let rest = find_state j m c in if str_eq i j && str_eq n m then some w else rest

pub put_kept :
    (i n j m : String) (c : Items) (w b : String)
    → find_state j m ((i, (n, w)) ∷ c) ≡ some b
    → ((j ≡ i) × (m ≡ n) × (b ≡ w)) ⊎ (find_state j m c ≡ some b)
unfolding find_state
put_kept i n j m c w b h = elim (Bool-cases (str_eq i j && str_eq n m)) [
  | inl y ↦
      let p : str_eq i j ≡ true = ground arith in
      let q : str_eq n m ≡ true = ground arith in
      inl (sym ((eq_iff i j).0 p), sym ((eq_iff n m).0 q), cc (rw y at h))
  | inr n ↦ inr (rw n at h)
]

abbrev pub latest : StateCache
latest = record {
  Cache = Items;
  get_cached = λ i n c. (find_state i n c, c);
  cache_state = λ i n w c. (i, (n, w)) ∷ c;
  get_kept = λ i n j m c b h. h;
  put_kept = put_kept;
}

-- A JSON for documents of at most the key "k", with a text or a tombstone.
unfoldable pub write_value : Value → Option String
write_value (text s) = some (String.◌∷◌ "t" s)
write_value deleted = some "D"
write_value _ = none

unfoldable pub write_entries : Entries by_name → Option String
unfolding write_value
write_entries end = some "E"
write_entries (entry k v end) = if str_eq k "k" then write_value v else none
write_entries (entry k v (entry j w m)) = none

abbrev pub plain : Entries by_name → Doc
plain m = record { atomic = false; children = m }

unfoldable pub to_json : Doc → Option String
unfolding write_entries
to_json d = if d.atomic then none else write_entries d.children

unfoldable pub from_json : String → Option Doc
from_json String.[] = none
from_json (String.◌∷◌ c s) =
    if code c == 116
    then some (plain (entry "k" (text s) end))
    else if code c == 68
    then some (plain (entry "k" deleted end))
    else some (plain end)

moved :
    (t s : String) (m : Entries by_name)
    → t ≡ s
    → from_json t ≡ some (plain m)
    → str_eq t "" ≡ false
    → (from_json s ≡ some (plain m)) × (str_eq s "" ≡ false)
moved t s m e r n = subst (λ x. (from_json x ≡ some (plain m)) × (str_eq x "" ≡ false)) e (r, n)

from_value :
    (v : Value) (s : String)
    → write_value v ≡ some s
    → (from_json s ≡ some (plain (entry "k" v end))) × (str_eq s "" ≡ false)
unfolding write_value from_json
from_value (text t) s h =
    moved (String.◌∷◌ "t" t) s (entry "k" (text t) end) (cc (h)) refl (rw (cons-nil_lem "t" t) refl)
from_value deleted s h =
    moved "D" s (entry "k" deleted end) (cc (h)) (unfold from_json in refl) refl
from_value null s h = absurd (cc)
from_value (bool b) s h = absurd (cc)
from_value (int n) s h = absurd (cc)
from_value (doc a m) s h = absurd (cc)
from_value (list l) s h = absurd (cc)

from_entries :
    (m : Entries by_name) (s : String)
    → write_entries m ≡ some s
    → (from_json s ≡ some (plain m)) × (str_eq s "" ≡ false)
unfolding write_entries from_json
from_entries end s h = moved "E" s end (cc (h)) (unfold from_json in refl) refl
from_entries (entry k v end) s h = elim (Bool-cases (str_eq k "k")) [
  | inl y ↦
      subst (λ (j : String). (from_json s ≡ some (plain (entry j v end))) × (str_eq s "" ≡ false))
        (sym ((eq_iff k "k").0 y)) (from_value v s (rw y at h))
  | inr n ↦ absurd (cc (rw n at h))
]
from_entries (entry k v (entry j w m)) s h = absurd (cc)

pub from_doc :
    (d : Doc) (s : String) → to_json d ≡ some s → (from_json s ≡ some d) × (str_eq s "" ≡ false)
unfolding to_json
from_doc d s h = elim (Bool-cases d.atomic) [
  | inl y ↦ absurd (cc (rw y at h))
  | inr n ↦
      let (r, t) = from_entries d.children s (rw n at h) in
      (r ∙ ap (λ a. some (record { atomic = a; children = d.children })) (sym n), t)
]

abbrev pub json : DocJson
json = record {
  to_json = to_json;
  from_json = from_json;
  from_to_json = λ d s h. (from_doc d s h).0;
  json_has_text = λ d s h. (from_doc d s h).1;
}

-- ===== src/Crdt/Value.antt =====
-- `Value`, `Doc` and `List` of crates/lib/src/crdt/doc/: values with their containers, and what the
-- methods read of a value.
use eidetica.Base.{Bool, true, false, String, ℤ, Option, none, some}
use eidetica.Crdt.Key.{Keyed, by_name, by_position, Key}

-- The entries of a container stand in the order of their keys. For a `HashMap`, whose order nothing
-- may rely on, that is its canonical form. A `Doc` has its atomic flag and its children; the format
-- version is 0 in every `Doc` that the code can build.
mutual
  pub data Value : Type 0 where
    null : Value
    bool : Bool → Value
    int : ℤ → Value
    text : String → Value
    doc : Bool → Entries by_name → Value
    list : Entries by_position → Value
    deleted : Value

  pub data Entries : Keyed → Type 0 where
    end : {c : Keyed} → Entries c
    entry : {c : Keyed} → Key c → Value → Entries c → Entries c

pub record Doc : Type 0 where
  pub atomic : Bool
  pub children : Entries by_name

abbrev pub to_value : Doc → Value
to_value d = doc d.atomic d.children

abbrev pub is_leaf : Value → Bool
is_leaf (doc a m) = false
is_leaf (list l) = false
is_leaf _ = true

abbrev pub is_branch : Value → Bool
is_branch (doc a m) = true
is_branch (list l) = true
is_branch _ = false

abbrev pub is_deleted : Value → Bool
is_deleted deleted = true
is_deleted _ = false

abbrev pub as_bool : Value → Option Bool
as_bool (bool b) = some b
as_bool _ = none

abbrev pub as_int : Value → Option ℤ
as_int (int n) = some n
as_int _ = none

abbrev pub as_text : Value → Option String
as_text (text s) = some s
as_text _ = none

abbrev pub as_doc : Value → Option Doc
as_doc (doc a m) = some (record { atomic = a; children = m })
as_doc _ = none

abbrev pub as_list : Value → Option (Entries by_position)
as_list (list l) = some l
as_list _ = none

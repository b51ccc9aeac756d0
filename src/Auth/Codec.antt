-- ===== src/Auth/Codec.antt =====
-- The documents in which permissions, bounds and keys are stored: the `From` and `TryFrom<&Doc>` of
-- crates/lib/src/auth/types/permissions.rs and keys.rs.
pub mod RoundTrip
use eidetica.Base.{
  ℕ, ◌-◌, ◌%◌, ◌^◌, String, Bool, true, false, Option, none, some, if◌then◌else◌, ℤ, pos, negsuc,
  str_eq,
}
use eidetica.Base.Outcome.{Outcome, ok, err, ok_or, ◌>>=◌}
use eidetica.Crdt.Value.{Value, int, text, doc, Doc, to_value, as_doc}
use eidetica.Crdt.Doc.{new, atomic, get, get_text, get_int, set}
use eidetica.Auth.Permission.{Permission, admin, write, read, KeyStatus, active, revoked}
use eidetica.Auth.Bounds.{PermissionBounds}
use eidetica.Auth.Key.{AuthKey}

-- The variants of `CRDTError` in crates/lib/src/crdt/errors.rs that reading a document answers with.
pub data CrdtError : Type 0 where
  element_not_found : String → CrdtError
  deserialization_failed : CrdtError

-- a write whose old value nobody reads
abbrev pub put : String → Value → Doc → Doc
put k v d = (set k v d).1

unfoldable pub permission_to_doc : Permission → Doc
unfolding set
permission_to_doc (admin p) = put "priority" (int (pos p)) (put "type" (text "Admin") new)
permission_to_doc (write p) = put "priority" (int (pos p)) (put "type" (text "Write") new)
permission_to_doc read = put "type" (text "Read") new

-- `as u32`
abbrev pub to_u32 : ℤ → ℕ
to_u32 (pos n) = n % 2 ^ 32
to_u32 (negsuc n) = 2 ^ 32 - 1 - n % 2 ^ 32

unfoldable pub priority_of : Doc → Outcome CrdtError ℕ
unfolding get_int
priority_of d = do p ← ok_or (element_not_found "priority") (get_int "priority" d); ok (to_u32 p)

-- the match on the type's name
unfoldable pub permission_of_type : String → Doc → Outcome CrdtError Permission
unfolding priority_of
permission_of_type ptype d =
    if str_eq ptype "Admin"
    then (do p ← priority_of d; ok (admin p))
    else if str_eq ptype "Write"
    then (do p ← priority_of d; ok (write p))
    else if str_eq ptype "Read"
    then ok read
    else err deserialization_failed

unfoldable pub permission_from_doc : Doc → Outcome CrdtError Permission
unfolding get_text permission_of_type
permission_from_doc d = do
  ptype ← ok_or (element_not_found "type") (get_text "type" d)
  permission_of_type ptype d

-- the nested document under a key that must be one
unfoldable pub get_doc : String → Doc → Option Doc
unfolding get
get_doc k d = elim (get k d) [ none ↦ none | some v ↦ as_doc v ]

abbrev pub put_min : Option Permission → Doc → Doc
put_min none d = d
put_min (some m) d = put "min" (to_value (permission_to_doc m)) d

unfoldable pub bounds_to_doc : PermissionBounds → Doc
unfolding set
bounds_to_doc b = put_min b.min (put "max" (to_value (permission_to_doc b.max)) new)

abbrev pub read_min : Option Doc → Outcome CrdtError (Option Permission)
read_min none = ok none
read_min (some d) = do m ← permission_from_doc d; ok (some m)

unfoldable pub bounds_from_doc : Doc → Outcome CrdtError PermissionBounds
unfolding get_doc
bounds_from_doc d = do
  max_doc ← ok_or (element_not_found "max") (get_doc "max" d)
  max ← permission_from_doc max_doc
  min ← read_min (get_doc "min" d)
  ok (record { max = max; min = min })

abbrev pub status_text : KeyStatus → String
status_text active = "Active"
status_text revoked = "Revoked"

abbrev pub put_name : Option String → Doc → Doc
put_name none d = d
put_name (some n) d = put "name" (text n) d

-- A key is atomic: no partial merging.
unfoldable pub key_to_doc : AuthKey → Doc
unfolding set
key_to_doc k =
    put "status" (text (status_text k.status))
      (put "permissions" (to_value (permission_to_doc k.permissions)) (put_name k.name atomic))

abbrev pub status_of_text : String → Outcome CrdtError KeyStatus
status_of_text s =
    if str_eq s "Active"
    then ok active
    else if str_eq s "Revoked"
    then ok revoked
    else err deserialization_failed

unfoldable pub key_from_doc : Doc → Outcome CrdtError AuthKey
unfolding get_text get_doc
key_from_doc d = do
  perm_doc ← ok_or (element_not_found "permissions") (get_doc "permissions" d)
  permissions ← permission_from_doc perm_doc
  status_str ← ok_or (element_not_found "status") (get_text "status" d)
  status ← status_of_text status_str
  ok (record { name = get_text "name" d; permissions = permissions; status = status })

-- ===== src/Auth/Codec/RoundTrip.antt =====
-- Round trips of the documents of permissions, bounds and keys (crates/lib/src/auth/types/).
use eidetica.Base.{◌≡◌, refl, ap, String, Option, none, some, arith}
use eidetica.Base.Outcome.{ok}
use eidetica.Crdt.Path.{contains_dot, is_dot}
use eidetica.Crdt.Container.{lookup, insert}
use eidetica.Auth.Permission.{Permission, admin, write, read, IsU32, KeyStatus, active, revoked}
use eidetica.Auth.Bounds.{PermissionBounds}
use eidetica.Auth.Key.{AuthKey}
use eidetica.Auth.Codec.{
  permission_to_doc, permission_from_doc, bounds_to_doc, bounds_from_doc, key_to_doc, key_from_doc,
}

permission-round_trip :
    (p : Permission) → IsU32 p → permission_from_doc (permission_to_doc p) ≡ ok p
unfolding permission_from_doc permission_to_doc contains_dot is_dot lookup insert
permission-round_trip (admin p) h = ap (λ q. ok (admin q)) (omega arith)
permission-round_trip (write p) h = ap (λ q. ok (write q)) (omega arith)
permission-round_trip read h = refl

abbrev pub MinU32 : Option Permission → Type 0
MinU32 none = Unit
MinU32 (some m) = IsU32 m

abbrev pub BoundsU32 : PermissionBounds → Type 0
BoundsU32 b = IsU32 b.max × MinU32 b.min

bounds-parts :
    (p : Permission) (m : Option Permission)
    → BoundsU32 (record { max = p; min = m })
    → bounds_from_doc (bounds_to_doc (record { max = p; min = m }))
      ≡ ok (record { max = p; min = m })
unfolding bounds_from_doc bounds_to_doc contains_dot is_dot lookup insert
bounds-parts p none h = rw (permission-round_trip p h.0)
bounds-parts p (some m) h = rw (permission-round_trip p h.0, permission-round_trip m h.1)

key-parts :
    (n : Option String) (p : Permission) (s : KeyStatus)
    → IsU32 p
    → key_from_doc (key_to_doc (record { name = n; permissions = p; status = s }))
      ≡ ok (record { name = n; permissions = p; status = s })
unfolding key_from_doc key_to_doc contains_dot is_dot lookup insert
key-parts none p active h = rw (permission-round_trip p h)
key-parts none p revoked h = rw (permission-round_trip p h)
key-parts (some n) p active h = rw (permission-round_trip p h)
key-parts (some n) p revoked h = rw (permission-round_trip p h)

-- Permission bounds whose priorities are u32 numbers are read back from their document.
bounds-round_trip : (b : PermissionBounds) → BoundsU32 b → bounds_from_doc (bounds_to_doc b) ≡ ok b
bounds-round_trip b h = bounds-parts b.max b.min h

-- A key whose priority is a u32 number is read back from its document as it was written: name,
-- permission and status.
pub key-round_trip : (k : AuthKey) → IsU32 k.permissions → key_from_doc (key_to_doc k) ≡ ok k
key-round_trip k h = key-parts k.name k.permissions k.status h

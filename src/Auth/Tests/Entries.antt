-- ===== src/Auth/Tests/Entries.antt =====
-- The theorems on candidates and entries at concrete settings.
use eidetica.Base.{
  String, List, [], ◌∷◌, Bool, true, false, none, some, ◌≡◌, refl, ◌⊎◌, ◌↔◌, Exists, arith,
}
use eidetica.Base.Outcome.{ok}
use eidetica.Entry.{Entry}
use eidetica.Auth.Permission.{write, read, active, gt_perm, max_perm, cmp}
use eidetica.Auth.Key.{PublicKey, hint_from_pubkey, direct, ResolvedAuth, grants_access}
use eidetica.Auth.Settings.{revoke_key, get_global_permission}
use eidetica.Auth.Settings.Resolve.{resolve_hint}
use eidetica.Auth.Access.{
  counts_for, max_of, select_effective_permission, claims_other, resolve_identity_permission,
  listed_identity,
}
use eidetica.Auth.Access.Laws.{Grants, candidates, direct_identity-granted, resolve_hint-pubkey}
use eidetica.Auth.Validate.{validate_entry}
use eidetica.Auth.Validate.Laws.{Accepted, validate_entry-Accepted, revoke_key-validate_entry}
use eidetica.Auth.Tests.Data.{
  laptop, phone, laptop_key, laptop-IsBase64, with_laptop, laptop_stored,
}

abbrev grants : List ResolvedAuth
grants =
    record { public_key = laptop; effective_permission = read; key_status = active }
    ∷ record { public_key = laptop; effective_permission = write 10; key_status = active }
    ∷ record { public_key = phone; effective_permission = write 1; key_status = active }
    ∷ []

granted : select_effective_permission grants laptop ≡ some (write 10)
unfolding select_effective_permission max_of counts_for grants_access max_perm gt_perm cmp
granted = refl

abbrev decodes : String → Bool
decodes s = true

identity_granted :
    resolve_identity_permission decodes none laptop (direct (hint_from_pubkey laptop)) with_laptop
    ≡ ok (write 10)
unfolding resolve_identity_permission listed_identity select_effective_permission max_of counts_for
    grants_access hint_from_pubkey
identity_granted = rw (resolve_hint-pubkey decodes laptop laptop_key with_laptop laptop_stored) refl

direct_identity-granted_example :
    (claims_other laptop (hint_from_pubkey laptop).pubkey ≡ false)
    × ((get_global_permission with_laptop ≡ some (write 10))
        ⊎ Exists
            (Grants laptop (write 10))
            (candidates (resolve_hint decodes (hint_from_pubkey laptop) with_laptop)))
direct_identity-granted_example =
    direct_identity-granted decodes none laptop (hint_from_pubkey laptop) with_laptop (write 10)
      identity_granted

-- a signed write of settings
abbrev settings_write : Entry
settings_write = record {
  tree = record { root = some "root"; parents = "root" ∷ []; metadata = none; height = 1 };
  subtrees = record { name = "_settings"; parents = []; payload = some "{}"; height = none } ∷ [];
  sig = record { sig = some "signature"; key = direct (hint_from_pubkey laptop) };
}

abbrev verifies : Entry → PublicKey → Bool
verifies e k = true

validate_entry-Accepted_example :
    (validate_entry decodes none verifies settings_write with_laptop ≡ true)
    ↔ Accepted decodes none verifies settings_write with_laptop
validate_entry-Accepted_example =
    validate_entry-Accepted decodes none verifies settings_write with_laptop

revoke_key-validate_entry_example :
    validate_entry decodes none verifies settings_write (revoke_key laptop with_laptop).1 ≡ false
unfolding hint_from_pubkey
revoke_key-validate_entry_example =
    revoke_key-validate_entry decodes none verifies settings_write (hint_from_pubkey laptop) laptop
      laptop_key with_laptop laptop-IsBase64 (omega arith) laptop_stored refl refl refl

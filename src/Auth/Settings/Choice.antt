-- ===== src/Auth/Settings/Choice.antt =====
-- About the choice of an access, `resolve_sig_key_for_operation` of crates/lib/src/auth/settings.rs.
use eidetica.Base.{Option, none, some, if◌then◌else◌}
use eidetica.Base.Outcome.{ok, err}
use eidetica.Auth.Permission.{Permission, gt_perm}
use eidetica.Auth.Key.{PublicKey, hint_from_pubkey, hint_global, SigKey, direct}
use eidetica.Auth.Error.{permission_denied, Checked}

-- the higher of the key's own grant and the wildcard's, its own where they are equal
abbrev pub best_access :
    PublicKey → Option Permission → Option Permission → Checked (SigKey × Permission)
best_access k none none = err permission_denied
best_access k (some p) none = ok (direct (hint_from_pubkey k), p)
best_access k none (some g) = ok (direct (hint_global k), g)
best_access k (some p) (some g) =
    if gt_perm g p then ok (direct (hint_global k), g) else ok (direct (hint_from_pubkey k), p)

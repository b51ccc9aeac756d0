-- ===== src/Auth/Tests/Delegated.antt =====
-- The theorem on delegation paths at a concrete pair of trees.
use eidetica.Base.{List, [], ◌∷◌, true, false, some, ◌≡◌, refl, pos, ◌≤◌, length, map, All}
use eidetica.Base.Outcome.{ok}
use eidetica.Crdt.Path.{contains_dot, is_dot, components, split}
use eidetica.Crdt.Container.{lookup}
use eidetica.Crdt.Value.{Value, int, text, doc, end, entry}
use eidetica.Auth.Permission.{write, active}
use eidetica.Auth.Bounds.{clamp_permission}
use eidetica.Auth.Key.{to_prefixed_string, hint_from_pubkey, DelegationStep, ResolvedAuth}
use eidetica.Auth.Codec.{permission_from_doc, key_from_doc, bounds_from_doc}
use eidetica.Auth.Settings.{AuthSettings, get_key_by_pubkey}
use eidetica.Auth.Settings.Resolve.{resolve_hint}
use eidetica.Auth.Reference.{DelegatedTreeRef}
use eidetica.Auth.Delegation.{
  Trees, reachable, take_steps, take_step, pinned_settings, some_match, combine_bounds,
  resolve_delegation_path,
}
use eidetica.Auth.Delegation.Laws.{Follows, Within, identity, resolve_delegation_path-Within}
use eidetica.Auth.Tests.Data.{laptop}

abbrev write_5 : Value
write_5 = doc false (entry "priority" (int (pos 5)) (entry "type" (text "Write") end))

abbrev admin_0 : Value
admin_0 = doc false (entry "priority" (int (pos 0)) (entry "type" (text "Admin") end))

-- the settings of a tree that delegates to the tree T, which may write with priority 5
abbrev parent : AuthSettings
parent = record {
  inner = record {
    atomic = false;
    children =
        entry "delegations"
          (doc false (
            entry "T"
              (doc true (
                entry "permission_bounds" (doc false (entry "max" write_5 end)) (
                  entry "tree"
                    (doc false (
                      entry "root" (text "T")
                        (entry "tips" (doc false (entry "0" (text "tip") end)) end)))
                    end)))
              end))
          end;
  };
}

-- the settings of the tree T, where the laptop's key is an admin
abbrev child : AuthSettings
child = record {
  inner = record {
    atomic = false;
    children =
        entry "keys"
          (doc false (
            entry "ed25519:bGFwdG9w"
              (doc true (entry "permissions" admin_0 (entry "status" (text "Active") end))) end))
          end;
  };
}

abbrev trees : Trees
trees = record {
  decodes = λ s. true;
  parse_cid = λ s. some s;
  opens = λ root. true;
  check_targets_reachable_from = λ root tips floor. some reachable;
  new_transaction_at = λ root tips. true;
  get_settings = λ root tips. ok tt;
  auth_snapshot = λ root tips. some child;
}

abbrev path : List DelegationStep
path = record { tree = "T"; tips = "tip" ∷ [] } ∷ []

abbrev matches : List ResolvedAuth
matches = record { public_key = laptop; effective_permission = write 5; key_status = active } ∷ []

path_resolved : resolve_delegation_path trees path (hint_from_pubkey laptop) parent ≡ ok matches
unfolding resolve_delegation_path take_steps take_step pinned_settings some_match combine_bounds
    hint_from_pubkey contains_dot is_dot components split lookup bounds_from_doc permission_from_doc
    get_key_by_pubkey to_prefixed_string key_from_doc clamp_permission
path_resolved = refl

resolve_delegation_path-Within_example :
    (length path ≤ 10)
    × ((hint_from_pubkey laptop).is_global ≡ false)
    × (rs : List DelegatedTreeRef) × (last : AuthSettings) × Follows trees parent path rs last
    × All (Within rs) matches
    × (found : List ResolvedAuth) × (resolve_hint trees.decodes (hint_from_pubkey laptop) last
        ≡ ok found)
    × (map identity matches ≡ map identity found)
resolve_delegation_path-Within_example =
    resolve_delegation_path-Within trees path (hint_from_pubkey laptop) parent matches path_resolved

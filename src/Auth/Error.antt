-- ===== src/Auth/Error.antt =====
-- The variants of `AuthError` in crates/lib/src/auth/errors.rs that the modelled code answers with,
-- without the words of their messages.
use eidetica.Base.{ℕ, String, List}
use eidetica.Base.Outcome.{Outcome}

pub data AuthError : Type 0 where
  key_not_found : String → AuthError
  key_already_exists : String → AuthError
  invalid_key_format invalid_auth_configuration signing_key_mismatch permission_denied : AuthError
  empty_delegation_path invalid_delegation_step database_required : AuthError
  delegation_depth_exceeded : ℕ → AuthError
  delegation_path_too_long : ℕ → AuthError
  delegation_tips_too_many : String → ℕ → AuthError
  delegation_not_found : String → AuthError
  delegated_tree_load_failed : String → AuthError
  invalid_delegation_tips : String → List String → AuthError
  delegated_tree_unsynced : String → List String → AuthError

abbrev pub Checked : Type 0 → Type 0
Checked A = Outcome AuthError A

-- ===== src/Transaction/Error.antt =====
-- What a transaction and the stores on it answer with: crates/lib/src/transaction/errors.rs and
-- crates/lib/src/store/errors.rs.
use eidetica.Base.{String, Option, none, some}
use eidetica.Base.Outcome.{Outcome, ok, err, map_err}
use eidetica.Entry.Builder.{BuildError}
use eidetica.Backend.Error.{ReadError, Ran}

-- The variants that the modelled code makes, with the errors of the parts it calls: of the backend,
-- of serde_json, of an encryptor, and of merging.
pub data TxnError : Type 0 where
  already_committed : TxnError
  empty_tips_not_allowed : TxnError
  invalid_tip : String → TxnError
  system_subtree_locked : String → TxnError
  deserialization_failed : String → TxnError
  serde_failed : TxnError
  crypto_failed : String → TxnError
  merge_failed : TxnError
  backend_failed : ReadError → TxnError
  key_not_found : String → String → TxnError
  type_mismatch : String → String → String → TxnError
  store_failed : String → TxnError
  build_failed : BuildError → TxnError

-- a call whose loops may run out of fuel: `None` then
abbrev pub Tried {ℓ} : Type ℓ → Type ℓ
Tried A = Option (Outcome TxnError A)

abbrev pub from_backend {ℓ} : {A : Type ℓ} → Ran A → Tried A
from_backend none = none
from_backend (some m) = some (map_err backend_failed m)

infixl 5 ◌>>!◌
abbrev pub ◌>>!◌ {ℓ κ} : {A : Type ℓ} {B : Type κ} → Tried A → (A → Tried B) → Tried B
none >>! f = none
some (err e) >>! f = some (err e)
some (ok a) >>! f = f a

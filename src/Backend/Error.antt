-- ===== src/Backend/Error.antt =====
-- What the reads and the traversals of the backend answer with: crates/lib/src/backend/errors.rs.
use eidetica.Base.{String, List, Option, none, some}
use eidetica.Base.Outcome.{Outcome, ok, err}
use eidetica.Entry.Validate.{InvalidEntry}

-- The variants of `BackendError` that they answer with.
pub data ReadError : Type 0 where
  entry_not_found : String → ReadError
  entry_not_in_tree : String → String → ReadError
  cycle_detected : String → ReadError
  empty_entry_list : String → ReadError
  entry_validation_failed : String → InvalidEntry → ReadError
  no_common_ancestor : List String → ReadError

-- a call whose loops may run out of fuel: `None` then
abbrev pub Ran {ℓ} : Type ℓ → Type ℓ
Ran A = Option (Outcome ReadError A)

infixl 5 ◌>>?◌
abbrev pub ◌>>?◌ {ℓ κ} : {A : Type ℓ} {B : Type κ} → Ran A → (A → Ran B) → Ran B
none >>? f = none
some (err e) >>? f = some (err e)
some (ok a) >>? f = f a

-- ===== src/Transaction/Monad.antt =====
-- Calls that change what a transaction holds, answer with a value or an error, and may run out of
-- fuel: `None` then. What is changed before an error stays changed.
use eidetica.Base.{Option, none, some, ◌≡◌, refl}
use eidetica.Base.Outcome.{Outcome, ok, err}
use eidetica.Transaction.Error.{TxnError}

abbrev pub Act {ℓ} : Type 0 → Type ℓ → Type ℓ
Act S A = S → Option (Outcome TxnError A × S)

abbrev pub pure {ℓ} : {S : Type 0} {A : Type ℓ} → A → Act S A
pure a s = some (ok a, s)

abbrev pub lift {ℓ} : {S : Type 0} {A : Type ℓ} → Outcome TxnError A → Act S A
lift m s = some (m, s)

abbrev pub go_on {ℓ κ} :
    {S : Type 0} {A : Type ℓ} {B : Type κ}
    → Option (Outcome TxnError A × S)
    → (A → Act S B)
    → Option (Outcome TxnError B × S)
go_on none f = none
go_on (some (err e, s)) f = some (err e, s)
go_on (some (ok a, s)) f = f a s

infixl 5 ◌>>=◌ ◌>>◌
abbrev pub ◌>>=◌ {ℓ κ} : {S : Type 0} {A : Type ℓ} {B : Type κ} → Act S A → (A → Act S B) → Act S B
(m >>= f) s = go_on (m s) f

abbrev pub ◌>>◌ {ℓ} : {S : Type 0} {B : Type ℓ} → Act S (Unit {0}) → Act S B → Act S B
(m >> k) s = go_on (m s) (λ _. k)

-- a chain that succeeds has succeeded at its first call
pub go_on-ok {ℓ κ} :
    {S : Type 0} {A : Type ℓ} {B : Type κ} (o : Option (Outcome TxnError A × S)) (f : A → Act S B)
    (b : B) (u : S)
    → go_on o f ≡ some (ok b, u)
    → (a : A) × (s : S) × (o ≡ some (ok a, s)) × (f a s ≡ some (ok b, u))
go_on-ok none f b u h = absurd (cc)
go_on-ok (some (err e, s)) f b u h = absurd (cc)
go_on-ok (some (ok a, s)) f b u h = (a, s, refl, h)

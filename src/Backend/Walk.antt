-- ===== src/Backend/Walk.antt =====
-- The loop that the traversals of crates/lib/src/backend/database/in_memory/{storage,traversal}.rs
-- share: a queue of ids, the set of the ids that were processed, and what was found on the way.
pub mod Ends
pub mod Reach
pub mod Rule
use eidetica.Base.{
  ℕ, zero, suc, ◌+◌, String, List, [], ◌∷◌, ◌++◌, Bool, true, false, not, Option, none, some,
  if◌then◌else◌, length, keep,
}
use eidetica.Base.Outcome.{Outcome, ok, err}
use eidetica.Backend.Storage.{is_in}

-- What an id that is taken from the queue comes to: it is let go, it ends the whole loop with an
-- error, or it is processed, which queues some ids and adds to what was found.
pub data Look {ℓ κ} (E : Type κ) (A : Type ℓ) : Type (ℓ ⊔ κ) where
  drop : Look E A
  halt : E → Look E A
  see : List String → List A → Look E A

pub record Walked {ℓ} (A : Type ℓ) : Type ℓ where
  pub seen : List String
  pub found : List A

abbrev pub queued_of {ℓ κ} : {E : Type κ} {A : Type ℓ} → Look E A → List String
queued_of drop = []
queued_of (halt e) = []
queued_of (see ids xs) = ids

abbrev pub found_of {ℓ κ} : {E : Type κ} {A : Type ℓ} → Look E A → List A
found_of drop = []
found_of (halt e) = []
found_of (see ids xs) = xs

abbrev pub is_see {ℓ κ} : {E : Type κ} {A : Type ℓ} → Look E A → Bool
is_see drop = false
is_see (halt e) = false
is_see (see ids xs) = true

abbrev pub is_drop {ℓ κ} : {E : Type κ} {A : Type ℓ} → Look E A → Bool
is_drop drop = true
is_drop (halt e) = false
is_drop (see ids xs) = false

-- the ids to queue: some of the loops leave out those that were processed before
abbrev pub to_queue : Bool → List String → List String → List String
to_queue true seen ids = keep (λ id. not (is_in id seen)) ids
to_queue false seen ids = ids

module _ {ℓ κ} {E : Type κ} {A : Type ℓ} (prune : Bool) where
  -- One turn: the rest of the queue and the state after it.
  abbrev pub turn :
      String → List String → Walked A → Bool → Look E A → Outcome E (List String × Walked A)
  turn id rest s true l = ok (rest, s)
  turn id rest s false drop = ok (rest, s)
  turn id rest s false (halt e) = err e
  turn id rest s false (see ids xs) =
      ok (rest ++ to_queue prune s.seen ids, record { seen = id ∷ s.seen; found = s.found ++ xs })

  -- `None` when the fuel runs out.
  unfoldable pub walk :
      (String → Look E A) → ℕ → List String → Walked A → Option (Outcome E (Walked A))
  walk look fuel [] s = some (ok s)
  walk look zero (id ∷ rest) s = none
  walk look (suc fuel) (id ∷ rest) s = elim (turn id rest s (is_in id s.seen) (look id)) [
    | err e ↦ some (err e)
    | ok next ↦ walk look fuel next.0 next.1
  ]

  -- how many ids may still be queued, when only the given ids queue any
  abbrev pub weight : (String → Look E A) → List String → List String → ℕ
  weight look seen [] = 0
  weight look seen (id ∷ ids) =
      (if is_in id seen then 0 else length (queued_of (look id))) + weight look seen ids

  -- The loop from the tips, which stays away from the blocked ids. Each turn takes an id from the queue
  -- and each of the given ids is processed once at most, which bounds the fuel.
  unfoldable pub run :
      (String → Look E A) → List String → List String → List String → Option (Outcome E (Walked A))
  unfolding walk
  run look ids tips blocked =
      walk look (length tips + weight look blocked ids) tips (record { seen = blocked; found = [] })

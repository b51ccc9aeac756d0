-- ===== src/Backend/Walk/Rule.antt =====
-- The invariant rule of the loop, and what it found.
use eidetica.Base.{
  ℕ, zero, suc, String, List, [], ◌∷◌, ◌++◌, Bool, true, false, Option, none, some, ◌≡◌, refl, sym,
  subst, ap, ◌∙◌, inl, inr,
}
use eidetica.Base.Outcome.{Outcome, ok, err, Outcome-cases}
use eidetica.Backend.Storage.{is_in}
use eidetica.Backend.Walk.{Look, drop, halt, see, Walked, found_of, turn, walk, run}

module _ {E A : Type 0} (prune : Bool) (look : String → Look E A) where
  -- what holds after a turn, and after the loop
  abbrev pub AfterTurn :
      (List String → Walked A → Type 0) → (E → Type 0) → Outcome E (List String × Walked A) → Type 0
  AfterTurn P Q (ok next) = P next.0 next.1
  AfterTurn P Q (err e) = Q e

  abbrev pub AfterWalk :
      (List String → Walked A → Type 0) → (E → Type 0) → Option (Outcome E (Walked A)) → Type 0
  AfterWalk P Q none = Unit
  AfterWalk P Q (some (ok s)) = P [] s
  AfterWalk P Q (some (err e)) = Q e

  -- an invariant that a turn keeps holds at the end, with nothing left to process
  pub walk_rule :
      (P : List String → Walked A → Type 0) (Q : E → Type 0)
      → ((id : String) (rest : List String) (s : Walked A)
          → P (id ∷ rest) s
          → AfterTurn P Q (turn prune id rest s (is_in id s.seen) (look id)))
      → (fuel : ℕ) (queue : List String) (s : Walked A) → P queue s
      → AfterWalk P Q (walk prune look fuel queue s)
  unfolding walk
  walk_rule P Q kept fuel [] s p = p
  walk_rule P Q kept zero (id ∷ rest) s p = tt
  walk_rule P Q kept (suc fuel) (id ∷ rest) s p =
      elim (Outcome-cases (turn prune id rest s (is_in id s.seen) (look id))) [
        | inl (next, e) ↦
            rw (walk, e)
              (walk_rule P Q kept fuel next.0 next.1 (subst (AfterTurn P Q) e (kept id rest s p)))
        | inr (e, q) ↦ rw (walk, q) (subst (AfterTurn P Q) q (kept id rest s p))
      ]

  -- no id twice
  abbrev pub Distinct : List String → Type 0
  Distinct [] = Unit
  Distinct (v ∷ vs) = (is_in v vs ≡ false) × Distinct vs

  -- the values found at the processed ids, in the order in which they were processed
  abbrev pub values_at : List String → List A
  values_at [] = []
  values_at (v ∷ vs) = values_at vs ++ found_of (look v)

  abbrev pub Gathered : List String → Walked A → Type 0
  Gathered queue s = Distinct s.seen × (s.found ≡ values_at s.seen)

  turn-Gathered :
      (id : String) (rest : List String) (s : Walked A) (b : Bool) (l : Look E A)
      → is_in id s.seen ≡ b
      → look id ≡ l
      → Gathered (id ∷ rest) s
      → AfterTurn Gathered (λ e. Unit) (turn prune id rest s b l)
  turn-Gathered id rest s true l eb el g = g
  turn-Gathered id rest s false drop eb el g = g
  turn-Gathered id rest s false (halt e) eb el g = tt
  turn-Gathered id rest s false (see qs xs) eb el g = (
    (eb, g.0),
    ap (λ (ys : List A). ys ++ xs) g.1 ∙ ap (λ l. values_at s.seen ++ found_of l) (sym el),
  )

  -- each id is processed once, and what was found is what stands at the processed ids
  pub run-Gathered :
      (ids tips : List String) → AfterWalk Gathered (λ e. Unit) (run prune look ids tips [])
  unfolding run
  run-Gathered ids tips =
      walk_rule Gathered (λ e. Unit) (λ id rest s g. turn-Gathered id rest s _ _ refl refl g) _ tips
        _ (tt, refl)

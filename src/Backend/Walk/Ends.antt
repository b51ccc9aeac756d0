-- ===== src/Backend/Walk/Ends.antt =====
-- About the number of turns of the loop.
use eidetica.Base.{
  ℕ, zero, suc, ◌+◌, ◌≤◌, String, List, [], ◌∷◌, Bool, true, false, not, some, length,
  length-append, keep, str_eq, eq_refl, eq_iff, ◌≡◌, refl, subst, ap, Bool-cases, inl, inr, arith,
}
use eidetica.Base.Outcome.{Outcome, ok, err, Outcome-cases}
use eidetica.Backend.Storage.{is_in}
use eidetica.Backend.Walk.{
  Look, drop, halt, see, Walked, queued_of, to_queue, turn, walk, run, weight,
}

length-keep {ℓ} : {A : Type ℓ} (p : A → Bool) (xs : List A) → length (keep p xs) ≤ length xs
length-keep p [] = omega arith
length-keep p (x ∷ xs) = ground (arith, length-keep p xs)

length-to_queue :
    (prune : Bool) (seen ids : List String) → length (to_queue prune seen ids) ≤ length ids
length-to_queue true seen ids = length-keep (λ id. not (is_in id seen)) ids
length-to_queue false seen ids = omega arith

module _ {ℓ κ} {E : Type κ} {A : Type ℓ} (prune : Bool) (look : String → Look E A) where
  same_queued :
      (id v : String)
      → str_eq id v ≡ true
      → length (queued_of (look id)) ≡ length (queued_of (look v))
  same_queued id v h = ap (λ u. length (queued_of (look u))) ((eq_iff id v).0 h)

  pub weight-le :
      (v : String) (seen ids : List String)
      → weight prune look (v ∷ seen) ids ≤ weight prune look seen ids
  weight-le v seen [] = omega arith
  weight-le v seen (id ∷ ids) = ground (arith, weight-le v seen ids)

  weight-seen :
      (v : String) (seen ids : List String)
      → is_in v ids ≡ true
      → is_in v seen ≡ false
      → weight prune look (v ∷ seen) ids + length (queued_of (look v)) ≤ weight prune look seen ids
  weight-seen v seen [] h n = absurd (cc)
  weight-seen v seen (id ∷ ids) h n = elim (Bool-cases (str_eq id v)) [
    | inl e ↦
        let same = (eq_iff id v).0 e in
        rw (same, eq_refl v, n) (omega (arith, weight-le v seen ids))
    | inr e ↦ ground (arith, weight-seen v seen ids (rw e at h) n)
  ]

  -- a turn that does not end the loop lowers the count
  abbrev pub Lowers : List String → ℕ → Outcome E (List String × Walked A) → Type 0
  Lowers ids n (ok next) = suc (length next.0 + weight prune look (next.1).seen ids) ≤ n
  Lowers ids n (err e) = Unit

  pub weight-queued :
      (ids : List String) (id : String) (seen : List String)
      → (is_in id ids ≡ false → queued_of (look id) ≡ [])
      → is_in id seen ≡ false
      → weight prune look (id ∷ seen) ids + length (queued_of (look id))
        ≤ weight prune look seen ids
  weight-queued ids id seen all n = elim (Bool-cases (is_in id ids)) [
    | inl y ↦ weight-seen id seen ids y n
    | inr no_id ↦ omega (arith, weight-le id seen ids, ap length (all no_id))
  ]

  turn-Lowers :
      (ids : List String) (id : String) (rest : List String) (s : Walked A) (b : Bool)
      (l : Look E A)
      → (is_in id ids ≡ false → queued_of (look id) ≡ [])
      → is_in id s.seen ≡ b
      → look id ≡ l
      → Lowers ids (suc (length rest) + weight prune look s.seen ids) (turn prune id rest s b l)
  turn-Lowers ids id rest s true l all eb el = omega arith
  turn-Lowers ids id rest s false drop all eb el = omega arith
  turn-Lowers ids id rest s false (halt e) all eb el = tt
  turn-Lowers ids id rest s false (see qs xs) all eb el = omega (
    arith,
    length-append rest (to_queue prune s.seen qs),
    length-to_queue prune s.seen qs,
    weight-queued ids id s.seen all eb,
    ap (λ l. length (queued_of l)) el,
  )

  -- enough fuel for a loop that starts anywhere
  walk_ends :
      (ids : List String)
      → ((v : String) → is_in v ids ≡ false → queued_of (look v) ≡ [])
      → (fuel : ℕ) (queue : List String) (s : Walked A)
      → length queue + weight prune look s.seen ids ≤ fuel
      → (r : Outcome E (Walked A)) × (walk prune look fuel queue s ≡ some r)
  unfolding walk
  walk_ends ids all fuel [] s h = (ok s, refl)
  walk_ends ids all zero (id ∷ rest) s h = absurd (omega arith)
  walk_ends ids all (suc fuel) (id ∷ rest) s h =
      elim (Outcome-cases (turn prune id rest s (is_in id s.seen) (look id))) [
        | inl (next, e) ↦
            let less = subst (Lowers ids _) e (turn-Lowers ids id rest s _ _ (all id) refl refl) in
            let (r, ends) = walk_ends ids all fuel next.0 next.1 (omega arith) in
            (r, rw (walk, e) ends)
        | inr (e, q) ↦ (err e, rw (walk, q) refl)
      ]

  -- The loop that the traversals run ends with its fuel, with a result or with an error, if only
  -- the given ids queue any others: from any queue, with any blocked ids and in any graph, also one
  -- with cycles.
  pub run_ends :
      (ids tips blocked : List String)
      → ((v : String) → is_in v ids ≡ false → queued_of (look v) ≡ [])
      → (r : Outcome E (Walked A)) × (run prune look ids tips blocked ≡ some r)
  unfolding run
  run_ends ids tips blocked all = walk_ends ids all _ tips _ (omega arith)

-- ===== src/Backend/Walk/Reach.antt =====
-- About the ids that the loop processes.
use eidetica.Base.{
  String, List, [], ◌∷◌, ◌++◌, Bool, true, false, not, ◌||◌, if◌then◌else◌, keep, str_eq, eq_iff,
  eq_refl, ◌∙◌, ◌≡◌, refl, sym, subst, ap, Bool-cases, inl, inr, arith,
}
use eidetica.Backend.Storage.{is_in}
use eidetica.Backend.Walk.{
  Look, drop, halt, see, Walked, queued_of, is_see, is_drop, to_queue, turn, run,
}
use eidetica.Backend.Walk.Rule.{AfterTurn, AfterWalk, walk_rule}

pub is_in-append :
    (v : String) (xs ys : List String) → is_in v (xs ++ ys) ≡ (is_in v xs || is_in v ys)
is_in-append v [] ys = refl
is_in-append v (x ∷ xs) ys = ground (arith, is_in-append v xs ys)

same_is_in : (i v : String) (xs : List String) → str_eq i v ≡ true → is_in i xs ≡ is_in v xs
same_is_in i v xs h = ap (λ u. is_in u xs) ((eq_iff i v).0 h)

is_in-keep :
    (v : String) (seen ids : List String)
    → is_in v (keep (λ id. not (is_in id seen)) ids) ≡ (if is_in v seen then false else is_in v ids)
is_in-keep v seen [] = ground arith
is_in-keep v seen (id ∷ ids) = ground (arith, is_in-keep v seen ids, same_is_in id v seen)

-- what is queued was asked for, and what was asked for is queued or was seen
to_queue-sub :
    (prune : Bool) (v : String) (seen ids : List String)
    → is_in v (to_queue prune seen ids) ≡ true
    → is_in v ids ≡ true
to_queue-sub true v seen ids h = ground (arith, is_in-keep v seen ids)
to_queue-sub false v seen ids h = h

to_queue-all :
    (prune : Bool) (v : String) (seen ids : List String)
    → is_in v ids ≡ true
    → (is_in v (to_queue prune seen ids) || is_in v seen) ≡ true
to_queue-all true v seen ids h = ground (arith, is_in-keep v seen ids)
to_queue-all false v seen ids h = ground arith

-- The ids that are reached from the tips by steps from an id to one that it names, without any of
-- the blocked ones.
pub data Reach (names : String → List String) (tips blocked : List String) : String → Type 0 where
  at_start :
      {v : String} → is_in v tips ≡ true → is_in v blocked ≡ false → Reach names tips blocked v
  at_named :
      {u v : String}
      → Reach names tips blocked u
      → is_in v (names u) ≡ true
      → is_in v blocked ≡ false
      → Reach names tips blocked v

module _ {E A : Type 0} (prune : Bool) (look : String → Look E A) (tips blocked : List String) where
  abbrev pub Reached : String → Type 0
  Reached = Reach (λ u. queued_of (look u)) tips blocked

  abbrev pub handled : List String → List String → String → Bool
  handled queue seen v = is_drop (look v) || (is_in v queue || is_in v seen)

  pub record Inv (queue seen : List String) : Type 0 where
    pub queued : (v : String) → is_in v queue ≡ true → is_in v blocked ≡ false → Reached v
    pub sound : (v : String) → is_in v seen ≡ true → is_in v blocked ≡ false → Reached v
    pub seen_see :
        (v : String) → is_in v seen ≡ true → is_in v blocked ≡ false → is_see (look v) ≡ true
    pub stays : (v : String) → is_in v blocked ≡ true → is_in v seen ≡ true
    pub tips_in : (v : String) → is_in v tips ≡ true → handled queue seen v ≡ true
    pub closed :
        (u v : String)
        → is_in u seen ≡ true
        → is_in u blocked ≡ false
        → is_in v (queued_of (look u)) ≡ true
        → handled queue seen v ≡ true

  Inv-start : Inv tips blocked
  Inv-start = record {
    queued = λ v h n. at_start h n;
    sound = λ v h n. absurd (cc);
    seen_see = λ v h n. absurd (cc);
    stays = λ v h. h;
    tips_in = λ v h. ground arith;
    closed = λ u v h n e. absurd (cc);
  }

  Inv-skip :
      (id : String) (rest seen : List String)
      → (is_drop (look id) || is_in id seen) ≡ true
      → Inv (id ∷ rest) seen
      → Inv rest seen
  Inv-skip id rest seen h inv = record {
    queued = λ v q. inv.queued v (ground arith);
    sound = inv.sound;
    seen_see = inv.seen_see;
    stays = inv.stays;
    tips_in = λ v t. ground (arith, inv.tips_in v t, eq_iff id v);
    closed = λ u v s n e. ground (arith, inv.closed u v s n e, eq_iff id v);
  }

  not_blocked :
      (id : String) (queue seen : List String)
      → Inv queue seen
      → is_in id seen ≡ false
      → is_in id blocked ≡ false
  not_blocked id queue seen inv n = ground (arith, inv.stays id)

  Reached-head :
      (id : String) (rest seen : List String)
      → Inv (id ∷ rest) seen
      → is_in id seen ≡ false
      → Reached id
  Reached-head id rest seen inv n =
      inv.queued id (rw (eq_refl id) refl) (not_blocked id (id ∷ rest) seen inv n)

  to-head : (id v : String) (P : String → Type 0) → str_eq id v ≡ true → P id → P v
  to-head id v P e p = subst P ((eq_iff id v).0 e) p

  handled-see :
      (id : String) (rest seen qs : List String) (v : String)
      → handled (id ∷ rest) seen v ≡ true
      → handled (rest ++ to_queue prune seen qs) (id ∷ seen) v ≡ true
  handled-see id rest seen qs v h = ground (arith, is_in-append v rest (to_queue prune seen qs))

  handled-queued :
      (id : String) (rest seen qs : List String) (v : String)
      → is_in v qs ≡ true
      → handled (rest ++ to_queue prune seen qs) (id ∷ seen) v ≡ true
  handled-queued id rest seen qs v h =
      ground (arith, is_in-append v rest (to_queue prune seen qs), to_queue-all prune v seen qs h)

  queued-see :
      (id : String) (rest seen qs : List String) (v : String)
      → Inv (id ∷ rest) seen
      → is_in id seen ≡ false
      → queued_of (look id) ≡ qs
      → is_in v (rest ++ to_queue prune seen qs) ≡ true
      → is_in v blocked ≡ false
      → Reached v
  queued-see id rest seen qs v inv n l h b = elim (Bool-cases (is_in v rest)) [
    | inl y ↦ inv.queued v (ground arith) b
    | inr no_v ↦
        let asked : is_in v qs ≡ true =
          to_queue-sub prune v seen qs
            (ground (arith, is_in-append v rest (to_queue prune seen qs))) in
        at_named (Reached-head id rest seen inv n) (rw l asked) b
  ]

  Inv-see :
      (id : String) (rest seen qs : List String) (xs : List A)
      → is_in id seen ≡ false
      → look id ≡ see qs xs
      → Inv (id ∷ rest) seen
      → Inv (rest ++ to_queue prune seen qs) (id ∷ seen)
  Inv-see id rest seen qs xs n l inv = record {
    queued = λ v h b. queued-see id rest seen qs v inv n (ap queued_of l) h b;
    sound = λ v h b. elim (Bool-cases (str_eq id v)) [
      | inl e ↦ to-head id v Reached e (Reached-head id rest seen inv n)
      | inr e ↦ inv.sound v (ground arith) b
    ];
    seen_see = λ v h b. elim (Bool-cases (str_eq id v)) [
      | inl e ↦ to-head id v (λ u. is_see (look u) ≡ true) e (ap is_see l)
      | inr e ↦ inv.seen_see v (ground arith) b
    ];
    stays = λ v h. ground (arith, inv.stays v h);
    tips_in = λ v t. handled-see id rest seen qs v (inv.tips_in v t);
    closed = λ u v s b e. elim (Bool-cases (str_eq id u)) [
      | inl same ↦ handled-queued id rest seen qs v (
          subst (λ (ids : List String). is_in v ids ≡ true)
            (ap (λ w. queued_of (look w)) (sym ((eq_iff id u).0 same)) ∙ ap queued_of l) e)
      | inr other ↦ handled-see id rest seen qs v (inv.closed u v (ground arith) b e)
    ];
  }

  -- the error that ends the loop is that of an id which is reached
  abbrev pub Halts : E → Type 0
  Halts e = (v : String) × Reached v × (look v ≡ halt e)

  abbrev pub Kept : List String → Walked A → Type 0
  Kept queue s = Inv queue s.seen

  turn-Kept :
      (id : String) (rest : List String) (s : Walked A) (b : Bool) (l : Look E A)
      → is_in id s.seen ≡ b
      → look id ≡ l
      → Inv (id ∷ rest) s.seen
      → AfterTurn prune look Kept Halts (turn prune id rest s b l)
  turn-Kept id rest s true l eb el inv = Inv-skip id rest s.seen (ground arith) inv
  turn-Kept id rest s false drop eb el inv = Inv-skip id rest s.seen (rw el refl) inv
  turn-Kept id rest s false (halt e) eb el inv = (id, Reached-head id rest s.seen inv eb, el)
  turn-Kept id rest s false (see qs xs) eb el inv = Inv-see id rest s.seen qs xs eb el inv

  pub unblocked : (u : String) → Reached u → is_in u blocked ≡ false
  unblocked u (at_start t b) = b
  unblocked u (at_named r e b) = b

  queued-drop : (v : String) (l : Look E A) → is_drop l ≡ true → is_in v (queued_of l) ≡ false
  queued-drop v drop h = refl
  queued-drop v (halt e) h = refl
  queued-drop v (see qs xs) h = absurd (cc)

  processed :
      (seen : List String) (u v : String)
      → (is_drop (look u) || is_in u seen) ≡ true
      → is_in v (queued_of (look u)) ≡ true
      → is_in u seen ≡ true
  processed seen u v h e = ground (arith, queued-drop v (look u))

  pub run-Kept :
      (ids : List String) → AfterWalk prune look Kept Halts (run prune look ids tips blocked)
  unfolding run
  run-Kept ids =
      walk_rule prune look Kept Halts (λ id rest s inv. turn-Kept id rest s _ _ refl refl inv) _
        tips _ Inv-start

  -- at the end an id that is reached was let go or processed
  pub complete :
      (seen : List String) (v : String)
      → Inv [] seen
      → Reached v
      → (is_drop (look v) || is_in v seen) ≡ true
  complete seen v inv (at_start t b) = inv.tips_in v t
  complete seen v inv (at_named {u} r e b) =
      inv.closed u v (processed seen u v (complete seen u inv r) e) (unblocked u r) e

  see-not_drop : (l : Look E A) (b : Bool) → is_see l ≡ true → (is_drop l || b) ≡ true → b ≡ true
  see-not_drop drop b h o = absurd (cc)
  see-not_drop (halt e) b h o = absurd (cc)
  see-not_drop (see qs xs) b h o = o

  pub complete-see :
      (seen : List String) (v : String)
      → Inv [] seen
      → Reached v
      → is_see (look v) ≡ true
      → is_in v seen ≡ true
  complete-see seen v inv r h = see-not_drop (look v) (is_in v seen) h (complete seen v inv r)

-- ===== src/Backend/Traversal/MergeBase/Climb.antt =====
-- About the ways up from an entry in a store, and the entry that all of them pass:
-- `all_paths_pass_through` and `collect_ancestors` of
-- crates/lib/src/backend/database/in_memory/traversal.rs.
use eidetica.Base.{
  String, List, [], ◌∷◌, Bool, true, false, Option, none, some, not, str_eq, str_eq_comm, eq_refl,
  eq_iff, ◌≡◌, refl, ap, Bool-cases, inl, inr, arith,
}
use eidetica.Base.Outcome.{Outcome, ok, err}
use eidetica.Entry.{Entry, EntryError, subtree_parents, is_empty_list}
use eidetica.Backend.Storage.{is_in, get_entry, parents_in}
use eidetica.Backend.Traversal.MergeBase.{look_bypass, parents_or_stop}
use eidetica.Backend.Walk.{Look, queued_of, is_see, is_drop}
use eidetica.Backend.Walk.Reach.{at_start, at_named, Reached, Inv, complete, unblocked}

-- the parents of an entry in the store, where it is there and takes part
unfoldable pub parents_at : String → Option Entry → List String
unfolding subtree_parents
parents_at name none = []
parents_at name (some e) = parents_in (subtree_parents name e)

-- a way up ends at an entry that is there and has no parents in the store
unfoldable pub top_at : String → Option Entry → Bool
unfolding subtree_parents
top_at name none = false
top_at name (some e) = is_empty_list (parents_in (subtree_parents name e))

queued-stop : (m : Outcome EntryError (List String)) → queued_of (parents_or_stop m) ≡ parents_in m
queued-stop (ok []) = refl
queued-stop (ok (id ∷ ids)) = refl
queued-stop (err x) = refl

see-stop :
    (m : Outcome EntryError (List String))
    → is_see (parents_or_stop m) ≡ not (is_empty_list (parents_in m))
see-stop (ok []) = refl
see-stop (ok (id ∷ ids)) = refl
see-stop (err x) = refl

drop-stop : (m : Outcome EntryError (List String)) → is_drop (parents_or_stop m) ≡ false
drop-stop (ok []) = refl
drop-stop (ok (id ∷ ids)) = refl
drop-stop (err x) = refl

pub queued-bypass :
    (name : String) (o : Option Entry) → queued_of (look_bypass name o) ≡ parents_at name o
unfolding look_bypass parents_at
queued-bypass name none = refl
queued-bypass name (some e) = queued-stop (subtree_parents name e)

pub see-bypass :
    (name : String) (o : Option Entry) → is_see (look_bypass name o) ≡ not (top_at name o)
unfolding look_bypass top_at
see-bypass name none = refl
see-bypass name (some e) = see-stop (subtree_parents name e)

drop-bypass : (name : String) (o : Option Entry) → is_drop (look_bypass name o) ≡ false
unfolding look_bypass
drop-bypass name none = refl
drop-bypass name (some e) = drop-stop (subtree_parents name e)

module _ (id_of : Entry → String) (name : String) (es : List Entry) where
  abbrev pub parents_of : String → List String
  parents_of id = parents_at name (get_entry id_of id es)

  abbrev pub is_top : String → Bool
  is_top id = top_at name (get_entry id_of id es)

  -- the ways up from an entry, each with the ids on it
  pub data Climb : String → List String → Type 0 where
    stop : {v : String} → is_top v ≡ true → Climb v (v ∷ [])
    go :
        {v w : String} {path : List String}
        → is_in w (parents_of v) ≡ true
        → Climb w path
        → Climb v (v ∷ path)

  abbrev look : String → Look (Unit {0}) String
  look v = look_bypass name (get_entry id_of v es)

  pub Climb-head : (v : String) (path : List String) → Climb v path → is_in v path ≡ true
  Climb-head v path (stop t) = rw (eq_refl v) refl
  Climb-head v path (go m c) = rw (eq_refl v) refl

  pub same_in :
      (v w : String) (path : List String) → str_eq v w ≡ true → is_in v path ≡ is_in w path
  same_in v w path e = ap (λ u. is_in u path) ((eq_iff v w).0 e)

  module _ (id candidate : String) where
    abbrev Avoids : String → Type 0
    Avoids = Reached false look (id ∷ []) (candidate ∷ [])

    open_is : (v : String) → Avoids v → str_eq v candidate ≡ false
    open_is v r =
        ground (arith, unblocked false look (id ∷ []) (candidate ∷ []) v r, str_eq_comm v candidate)

    no_top :
        (seen : List String)
        → Inv false look (id ∷ []) (candidate ∷ []) [] seen
        → (v : String) → Avoids v
        → is_top v ≡ false
    no_top seen inv v r =
        let s : is_in v seen ≡ true = ground (
          arith,
          complete false look (id ∷ []) (candidate ∷ []) seen v inv r,
          drop-bypass name (get_entry id_of v es),
        ) in
        let known = inv.seen_see v s (unblocked false look (id ∷ []) (candidate ∷ []) v r) in
        ground (arith, see-bypass name (get_entry id_of v es))

    -- where no top is reached around the candidate, every way up gets to the candidate
    pub Climb-passes :
        (seen : List String)
        → Inv false look (id ∷ []) (candidate ∷ []) [] seen
        → {v : String} {path : List String} → Avoids v
        → Climb v path
        → is_in candidate path ≡ true
    Climb-passes seen inv {v} r (stop t) = absurd (cc (no_top seen inv v r, t))
    Climb-passes seen inv {v} r (go {w = w} {path = path} m c) =
        elim (Bool-cases (str_eq candidate w)) [
          | inl e ↦ ground (arith, Climb-head w path c, same_in candidate w path e)
          | inr e ↦
              let reached : Avoids w =
                at_named r (rw (queued-bypass name (get_entry id_of v es)) m) (rw e refl) in
              rw (Climb-passes seen inv reached c) (ground arith)
        ]

    -- the way to an entry, with a way up from it
    pub Climb-from :
        {v : String} {path : List String}
        → Avoids v
        → Climb v path
        → is_in candidate path ≡ false
        → (way : List String) × Climb id way × (is_in candidate way ≡ false)
    Climb-from {v} {path} (at_start t b) c n = (path, rw ((eq_iff id v).0 (ground arith)) c, n)
    Climb-from {v} {path} (at_named {u} r m b) c n =
        Climb-from r (go (rw (← queued-bypass name (get_entry id_of u es)) m) c)
          (ground (arith, open_is u r))

-- ===== src/Backend/Reachable.antt =====
-- `check_targets_reachable_from` of crates/lib/src/backend/mod.rs: whether all of some entries are
-- ancestors of others, or what is missing to tell.
pub mod Search
pub mod Invariant
pub mod Seed
pub mod Verdict
use Prim.Native.Nat.{Ordering, compare}
use eidetica.Base.{
  ℕ, zero, suc, ◌+◌, ◌-◌, ◌^◌, String, List, [], ◌∷◌, ◌++◌, Bool, true, false, not, ◌&&◌, ◌||◌,
  Option, none, some, if◌then◌else◌, ltb, leb, length, str_eq, keep, map,
}
use eidetica.Base.Outcome.{Outcome, ok, err, ◌>>=◌}
use eidetica.Base.Sort.{sort_by, dedup}
use eidetica.Entry.{Entry, is_empty_list}
use eidetica.Auth.Delegation.{Reachability, reachable, unreachable, indeterminate}
use eidetica.Entry.Order.{IdOrder}
use eidetica.Backend.Error.{ReadError, entry_not_in_tree, Ran}
use eidetica.Backend.Storage.{InMemoryInner, is_in, get_entry, in_tree}
use eidetica.Backend.Walk.{Look, see, weight}
use eidetica.Backend.Storage.Read.{main_parents, tree_height}

-- the sets and the stack of the walk; the top of the stack is the first of its list
pub record Walking : Type 0 where
  pub unmet : List String
  pub missing : List String
  pub visited : List String
  pub stack : List String

-- `HashSet::insert` and `HashSet::remove`
abbrev pub insert_id : String → List String → List String
insert_id id ids = if is_in id ids then ids else id ∷ ids

abbrev pub remove_id : String → List String → List String
remove_id id ids = keep (λ other. not (str_eq other id)) ids

-- `Vec::extend`, for a stack
abbrev pub push_all : List String → List String → List String
push_all [] stack = stack
push_all (id ∷ ids) stack = push_all ids (id ∷ stack)

-- `u64::MAX`
abbrev pub max_height : ℕ
max_height = 2 ^ 64 - 1

abbrev pub min_height : ℕ → ℕ → ℕ
min_height a b = if leb a b then a else b

-- What an id is to a tree.
pub data Held : Type 0 where
  absent foreign : Held
  own : Entry → Held

-- an entry of the tree that was not visited: its parents are next, when it is above the floor
abbrev pub expand : ℕ → Entry → List String → List String
expand floor e stack = if ltb floor (tree_height e) then push_all (main_parents e) stack else stack

abbrev pub enter : ℕ → String → Entry → Walking → Walking
enter floor id e w = record w {
  visited = id ∷ w.visited;
  unmet = remove_id id w.unmet;
  stack = expand floor e w.stack;
}

-- one turn of the walk, for the id that is taken from the stack
abbrev pub step : ℕ → String → Held → Bool → Walking → Walking
step floor id h true w = w
step floor id absent false w = record w {
  visited = id ∷ w.visited;
  missing = w.missing ++ (id ∷ []);
}
step floor id foreign false w = record w { visited = id ∷ w.visited }
step floor id (own e) false w = enter floor id e w

abbrev pub popped : Walking → List String → Walking
popped w rest = record w { stack = rest }

abbrev pub parents_held : Held → List String
parents_held absent = []
parents_held foreign = []
parents_held (own e) = main_parents e

abbrev pub verdict : IdOrder → Walking → Reachability
verdict order w =
    if is_empty_list w.unmet
    then reachable
    else if not (is_empty_list w.missing)
    then indeterminate (dedup (sort_by order.compare_ids w.missing))
    else unreachable

abbrev pub answer : IdOrder → Option Walking → Ran Reachability
answer order none = none
answer order (some w) = some (ok (verdict order w))

abbrev pub no_walking : Walking
no_walking = record { unmet = []; missing = []; visited = []; stack = [] }

module _ (id_of : Entry → String) (tree : String) (es : List Entry) where
  abbrev pub held_as : Option Entry → Held
  held_as none = absent
  held_as (some e) = if in_tree id_of tree e then own e else foreign

  unfoldable pub held : String → Held
  unfolding get_entry in_tree
  held id = held_as (get_entry id_of id es)

  -- the loop over the targets: their floor, and the unmet and missing ones
  abbrev pub add_target : String → Held → ℕ × Walking → Outcome ReadError (ℕ × Walking)
  add_target id absent (floor, w) =
      ok (floor, record w { unmet = insert_id id w.unmet; missing = w.missing ++ (id ∷ []) })
  add_target id foreign (floor, w) = err (entry_not_in_tree id tree)
  add_target id (own e) (floor, w) =
      ok (min_height floor (tree_height e), record w { unmet = insert_id id w.unmet })

  unfoldable pub add_targets : List String → ℕ × Walking → Outcome ReadError (ℕ × Walking)
  unfolding held
  add_targets [] c = ok c
  add_targets (id ∷ ids) c = do next ← add_target id (held id) c; add_targets ids next

  -- the loop over the tips that the targets shall be reached from
  abbrev pub add_tip : ℕ → String → Held → Walking → Outcome ReadError Walking
  add_tip floor id absent w = ok (record w { missing = w.missing ++ (id ∷ []) })
  add_tip floor id foreign w = err (entry_not_in_tree id tree)
  add_tip floor id (own e) w = ok (if is_in id w.visited then w else enter floor id e w)

  unfoldable pub add_tips : ℕ → List String → Walking → Outcome ReadError Walking
  unfolding held
  add_tips floor [] w = ok w
  add_tips floor (id ∷ ids) w = do next ← add_tip floor id (held id) w; add_tips floor ids next

  -- the walk, which stops when no target is unmet; `None` when the fuel runs out
  unfoldable pub climb : ℕ → ℕ → List String → Walking → Option Walking
  unfolding held
  climb floor fuel [] w = some (popped w [])
  climb floor zero (id ∷ rest) w =
      if is_empty_list w.unmet then some (popped w (id ∷ rest)) else none
  climb floor (suc fuel) (id ∷ rest) w =
      let next = step floor id (held id) (is_in id w.visited) (popped w rest) in
      let others = climb floor fuel next.stack next in
      if is_empty_list w.unmet then some (popped w (id ∷ rest)) else others

  -- each turn takes an id from the stack, and each entry puts its parents there once at most
  abbrev pub look_parents : String → Look ReadError String
  look_parents id = see (parents_held (held id)) []

  abbrev pub fuel_for : Walking → ℕ
  fuel_for w = length w.stack + weight false look_parents w.visited (map id_of es)

  abbrev pub climb_from : IdOrder → ℕ → Outcome ReadError Walking → Ran Reachability
  climb_from order floor (err e) = some (err e)
  climb_from order floor (ok w) = answer order (climb floor (fuel_for w) w.stack w)

  abbrev pub seed_from : IdOrder → List String → Outcome ReadError (ℕ × Walking) → Ran Reachability
  seed_from order tips (err e) = some (err e)
  seed_from order tips (ok (floor, w)) = climb_from order floor (add_tips floor tips w)

  unfoldable pub check_targets_reachable_from :
      IdOrder → List String → List String → Ran Reachability
  unfolding add_targets add_tips climb
  check_targets_reachable_from order tips targets =
      let walked = seed_from order tips (add_targets targets (max_height, no_walking)) in
      if is_empty_list tips && not (is_empty_list targets) then some (ok unreachable) else walked

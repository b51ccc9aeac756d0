-- ===== src/Backend/Traversal/MergeBase/Lowest.antt =====
-- About `find_merge_base` of crates/lib/src/backend/database/in_memory/traversal.rs.
use eidetica.Base.{
  ℕ, ◌≤◌, String, List, [], ◌∷◌, Bool, true, false, ◌&&◌, none, some, str_eq, any, keep, All,
  any-All, eq_refl, eq_iff, map, ◌≡◌, refl, sym, subst, ap, ◌∙◌, ◌↔◌, ◌⊎◌, inl, inr, arith,
}
use eidetica.Base.Outcome.{ok, err}
use eidetica.Base.Sort.{Sorted, Sorted-sort_by, any-sort_by, All-sort_by, not_after}
use eidetica.Entry.{Entry}
use eidetica.Backend.Error.{no_common_ancestor, Ran}
use eidetica.Backend.Storage.{InMemoryInner, is_in}
use eidetica.Backend.Traversal.MergeBase.{
  highest_first, retain_common, common_of, get_subtree_height, verify_entries, ancestor_sets,
  all_pass, first_base, candidates_of, base_among, find_merge_base,
}
use eidetica.Backend.Traversal.MergeBase.Passes.{AllPass, all_paths_pass_through-Decides}
use eidetica.Backend.Traversal.MergeBase.Ancestors.{Ancestor, collect_ancestors-Ancestor}

abbrev named : String → String × ℕ → Bool
named c q = str_eq q.0 c

is_in-keep :
    (v : String) (p : String → Bool) (ids : List String)
    → is_in v (keep p ids) ≡ (is_in v ids && p v)
is_in-keep v p [] = refl
is_in-keep v p (id ∷ ids) = ground (arith, is_in-keep v p ids, ap p, eq_iff id v)

highest-total :
    (a b : String × ℕ)
    → not_after (highest_first a b) ≡ false
    → not_after (highest_first b a) ≡ true
highest-total a b h = ground arith

highest_trans :
    (a b c : String × ℕ)
    → not_after (highest_first a b) ≡ true
    → not_after (highest_first b c) ≡ true
    → not_after (highest_first a c) ≡ true
highest_trans a b c h g = ground arith

-- what stays of a set holds in each of the others
retain-All :
    (v : String) (sets : List (List String)) (common : List String)
    → (is_in v (retain_common sets common) ≡ true)
      ↔ ((is_in v common ≡ true) × All (λ set. is_in v set ≡ true) sets)
retain-All v [] common = (λ h. (h, tt), λ h. h.0)
retain-All v (ids ∷ sets) common =
    let rest = retain-All v sets (keep (λ id. is_in id ids) common) in
    let kept = is_in-keep v (λ id. is_in id ids) common in
    (
      λ h. let (m, all) = rest.0 h in (ground arith, (ground arith, all)),
      λ h. rest.1 (kept ∙ rw (h.0, h.1.0) refl, h.1.1),
    )

module _ (id_of : Entry → String) (name : String) (es : List Entry) where
  -- on every way up from each of some entries
  abbrev pub Dominates : List String → String → Type 0
  Dominates ids c = All (λ id. AllPass id_of name es id c) ids

  abbrev pub Common : List String → String → Type 0
  Common ids c = All (λ id. Ancestor id_of name es id c) ids

  -- `all_pass` ends, and says so
  all_pass-Decides :
      (ids : List String) (c : String)
      → ((all_pass id_of name es ids c ≡ some true) × Dominates ids c)
        ⊎ ((all_pass id_of name es ids c ≡ some false) × ¬ Dominates ids c)
  unfolding all_pass
  all_pass-Decides [] c = inl (refl, tt)
  all_pass-Decides (id ∷ ids) c = elim (all_paths_pass_through-Decides id_of name es id c) [
    | inl (e, pass) ↦ elim (all_pass-Decides ids c) [
      | inl (es', rest) ↦ inl (rw (e, es') refl, (pass, rest))
      | inr (es', not_all) ↦ inr (rw (e, es') refl, λ d. not_all d.1)
    ]
    | inr (e, (path, climb, around)) ↦ inr (rw e refl, λ d. cc (d.0 path climb, around))
  ]

  abbrev height : String → ℕ
  height = get_subtree_height id_of name es

  abbrev Measured : String × ℕ → Type 0
  Measured q = q.1 ≡ height q.0

  abbrev Below : List String → String → String × ℕ → Type 0
  Below ids base q = Dominates ids q.0 → height q.0 ≤ height base

  -- what the search through the candidates comes to
  abbrev Found : List String → List (String × ℕ) → Ran String → Type 0
  Found ids cs none = ¬ Unit {0}
  Found ids cs (some (ok base)) =
      (any (named base) cs ≡ true) × Dominates ids base × All (λ q. Below ids base q) cs
  Found ids cs (some (err e)) = (e ≡ no_common_ancestor ids) × All (λ q. ¬ Dominates ids q.0) cs

  later-Below :
      (ids : List String) (p : String × ℕ) (cs : List (String × ℕ))
      → Measured p
      → All Measured cs
      → All (λ q. not_after (highest_first p q) ≡ true) cs
      → All (λ q. Below ids p.0 q) cs
  later-Below ids p [] m ms h = tt
  later-Below ids p (q ∷ cs) m ms h =
      let le : q.1 ≤ p.1 = ground (arith, h.0) in
      ((λ d. omega (arith, ms.0)), later-Below ids p cs m ms.1 h.1)

  Found-later :
      (ids : List String) (p : String × ℕ) (cs : List (String × ℕ)) (r : Ran String)
      → ¬ Dominates ids p.0
      → Found ids cs r
      → Found ids (p ∷ cs) r
  Found-later ids p cs none n f = f
  Found-later ids p cs (some (ok base)) n f = (ground arith, f.1, (λ d. absurd (n d), f.2))
  Found-later ids p cs (some (err e)) n f = (f.0, (n, f.1))

  first_base-Found :
      (ids : List String) (cs : List (String × ℕ))
      → Sorted highest_first cs
      → All Measured cs
      → Found ids cs (first_base id_of name es ids cs)
  unfolding first_base
  first_base-Found ids [] sorted measured = (refl, tt)
  first_base-Found ids (p ∷ cs) sorted measured =
      let rest = first_base-Found ids cs sorted.1 measured.1 in
      elim (all_pass-Decides ids p.0) [
        | inl (e, d) ↦ rw e (
          rw (eq_refl p.0) refl,
          d,
          (λ _. omega arith, later-Below ids p cs measured.0 measured.1 sorted.0),
        )
        | inr (e, n) ↦ rw e (Found-later ids p cs _ n rest)
      ]

  -- the sets of ancestors: what is in all of them is an ancestor of all the entries
  ancestor_sets-Common :
      (ids : List String)
      → (sets : List (List String)) × (ancestor_sets id_of name es ids ≡ some (ok sets))
        × ((v : String) → All (λ set. is_in v set ≡ true) sets ↔ Common ids v)
  unfolding ancestor_sets
  ancestor_sets-Common [] = ([], refl, λ v. (λ h. h, λ h. h))
  ancestor_sets-Common (id ∷ ids) =
      let (set, e, one) = collect_ancestors-Ancestor id_of name es id in
      let (sets, e', others) = ancestor_sets-Common ids in
      (
        set ∷ sets,
        rw (e, e') refl,
        λ v. (λ h. ((one v).0 h.0, (others v).0 h.1), λ h. ((one v).1 h.0, (others v).1 h.1)),
      )

  abbrev measure : List String → List (String × ℕ)
  measure ids = map (λ id. (id, height id)) ids

  Measured-map : (ids : List String) → All Measured (measure ids)
  Measured-map [] = tt
  Measured-map (id ∷ ids) = (refl, Measured-map ids)

  any-map : (c : String) (ids : List String) → any (named c) (measure ids) ≡ is_in c ids
  any-map c [] = refl
  any-map c (id ∷ ids) = ground (arith, any-map c ids)

  -- the candidates are the common ancestors
  candidate_iff :
      (common : List String) (c : String)
      → any (named c) (candidates_of id_of name es common) ≡ is_in c common
  candidate_iff common c = any-sort_by highest_first (named c) _ ∙ any-map c common

  -- the answer: an entry that every way up passes, the highest of them, or the error that there is none
  abbrev pub Lowest : List String → Ran String → Type 0
  Lowest ids none = ¬ Unit {0}
  Lowest ids (some (ok base)) =
      Common ids base
      × Dominates ids base
      × ((c : String) → Common ids c → Dominates ids c → height c ≤ height base)
  Lowest ids (some (err e)) =
      (e ≡ no_common_ancestor ids) × ((c : String) → Common ids c → ¬ Dominates ids c)

  Found-Lowest :
      (ids common : List String) (r : Ran String)
      → ((c : String) → (is_in c common ≡ true) ↔ Common ids c)
      → Found ids (candidates_of id_of name es common) r
      → Lowest ids r
  Found-Lowest ids common none members f = f
  Found-Lowest ids common (some (ok base)) members f = (
    (members base).0 (sym (candidate_iff common base) ∙ f.0),
    f.1,
    λ c anc dom.
        let (q, same, le) =
          any-All (λ q. Below ids base q) (named c) _ (candidate_iff common c ∙ (members c).1 anc)
            f.2 in
        subst (λ v. Dominates ids v → height v ≤ height base) ((eq_iff q.0 c).0 same) le dom,
  )
  Found-Lowest ids common (some (err e)) members f = (
    f.0,
    λ c anc dom.
        let (q, same, around) =
          any-All (λ q. ¬ Dominates ids q.0) (named c) _
            (candidate_iff common c ∙ (members c).1 anc) f.1 in
        subst (λ v. ¬ Dominates ids v) ((eq_iff q.0 c).0 same) around dom,
  )

  base_among-Lowest :
      (ids common : List String)
      → ((c : String) → (is_in c common ≡ true) ↔ Common ids c)
      → Lowest ids (base_among id_of name es ids common)
  base_among-Lowest ids [] members = (refl, λ c anc dom. absurd (cc ((members c).1 anc)))
  base_among-Lowest ids (v ∷ common) members = Found-Lowest ids (v ∷ common) _ members (
      first_base-Found ids (candidates_of id_of name es (v ∷ common))
        (Sorted-sort_by highest_first highest-total highest_trans (measure (v ∷ common)))
        (All-sort_by highest_first Measured (measure (v ∷ common)) (Measured-map (v ∷ common))))

-- For two or more entries that are stored, valid and of the tree, `find_merge_base` ends. It
-- answers with an entry that is an ancestor of all of them and that every way up from each of them
-- to an entry without parents in the store passes through, and no other such entry is higher in the
-- store; or with NoCommonAncestor, and then there is no such entry.
pub find_merge_base-Lowest :
    (id_of : Entry → String) (tree name id next : String) (ids : List String) (s : InMemoryInner)
    → verify_entries id_of tree s.entries (id ∷ (next ∷ ids)) ≡ ok tt
    → Lowest id_of name s.entries
        (id ∷ (next ∷ ids))
        (find_merge_base id_of tree name (id ∷ (next ∷ ids)) s)
unfolding find_merge_base ancestor_sets
find_merge_base-Lowest id_of tree name id next ids s h =
    let es = s.entries in
    let (set, e, one) = collect_ancestors-Ancestor id_of name es id in
    let (sets, e', others) = ancestor_sets-Common id_of name es (next ∷ ids) in
    rw (h, e, e')
      (base_among-Lowest id_of name es (id ∷ (next ∷ ids)) (common_of (set ∷ sets)) (λ c.
        let kept = retain-All c sets set in
        (
          λ m. let (a, b) = kept.0 m in ((one c).0 a, (others c).0 b),
          λ m. kept.1 ((one c).1 m.0, (others c).1 m.1),
        )))

-- ===== src/Auth/Delegation/Laws.antt =====
-- About delegation paths, crates/lib/src/auth/validation/delegation.rs.
use eidetica.Base.{
  ◌≡◌, refl, sym, subst, ◌∙◌, ap, ◌≤◌, List, [], ◌∷◌, Bool, true, false, Option, none, some, length,
  map, All, All-map, arith,
}
use eidetica.Base.Outcome.{ok, bind-ok, ◌>>=◌}
use eidetica.Auth.Permission.{Permission, le_perm}
use eidetica.Auth.Permission.Order.{le_perm_refl, le_perm_trans, min_perm-le}
use eidetica.Auth.Bounds.{PermissionBounds}
use eidetica.Auth.Bounds.Laws.{clamp_permission_bounds}
use eidetica.Auth.Permission.{KeyStatus}
use eidetica.Auth.Key.{PublicKey, KeyHint, DelegationStep, ResolvedAuth}
use eidetica.Auth.Error.{Checked}
use eidetica.Auth.Settings.{AuthSettings}
use eidetica.Auth.Settings.Resolve.{resolve_hint}
use eidetica.Auth.Reference.{DelegatedTreeRef, get_delegated_tree}
use eidetica.Auth.Delegation.{
  Trees, reachable, take_step, take_steps, combine_bounds, clamp_match, clamp_matches, some_match,
  pinned_settings, resolve_delegation_path,
}

-- The bounds accumulated over declared references.
abbrev pub bounds_of : Option PermissionBounds → List DelegatedTreeRef → Option PermissionBounds
bounds_of b [] = b
bounds_of b (r ∷ rs) = bounds_of (some (combine_bounds b r.permission_bounds)) rs

abbrev capped : Option PermissionBounds → Permission → Bool
capped none p = false
capped (some b) p = le_perm b.max p

combine_bounds-capped :
    (o : Option PermissionBounds) (b : PermissionBounds) (p : Permission)
    → capped o p ≡ true
    → capped (some (combine_bounds o b)) p ≡ true
unfolding combine_bounds
combine_bounds-capped none b p h = ground arith
combine_bounds-capped (some a) b p h = le_perm_trans _ a.max p (min_perm-le a.max b.max).0 h

combine_bounds-new :
    (o : Option PermissionBounds) (b : PermissionBounds)
    → capped (some (combine_bounds o b)) b.max ≡ true
unfolding combine_bounds
combine_bounds-new none b = le_perm_refl b.max
combine_bounds-new (some a) b = (min_perm-le a.max b.max).1

bounds_of-capped :
    (o : Option PermissionBounds) (rs : List DelegatedTreeRef) (p : Permission)
    → capped o p ≡ true
    → capped (bounds_of o rs) p ≡ true
bounds_of-capped o [] p h = h
bounds_of-capped o (r ∷ rs) p h =
    bounds_of-capped (some (combine_bounds o r.permission_bounds)) rs p
      (combine_bounds-capped o r.permission_bounds p h)

bounds_of-All :
    (o : Option PermissionBounds) (rs : List DelegatedTreeRef)
    → All (λ r. capped (bounds_of o rs) (r.permission_bounds).max ≡ true) rs
bounds_of-All o [] = tt
bounds_of-All o (r ∷ rs) =
    let next = some (combine_bounds o r.permission_bounds) in
    (
      bounds_of-capped next rs (r.permission_bounds).max (combine_bounds-new o r.permission_bounds),
      bounds_of-All next rs,
    )

-- a permission that no declared maximum is below
abbrev pub Within : List DelegatedTreeRef → ResolvedAuth → Type 0
Within rs m = All (λ r. le_perm m.effective_permission (r.permission_bounds).max ≡ true) rs

clamp_match-capped :
    (b : PermissionBounds) (m : ResolvedAuth) (p : Permission)
    → capped (some b) p ≡ true
    → le_perm (clamp_match b m).effective_permission p ≡ true
clamp_match-capped b m p h =
    le_perm_trans _ b.max p (clamp_permission_bounds m.effective_permission b).0 h

clamp_matches-Within :
    (b : PermissionBounds) (rs : List DelegatedTreeRef) (ms : List ResolvedAuth)
    → All (λ r. capped (some b) (r.permission_bounds).max ≡ true) rs
    → All (Within rs) (map (clamp_match b) ms)
clamp_matches-Within b rs [] h = tt
clamp_matches-Within b rs (m ∷ ms) h = (
  All-map (λ r. clamp_match-capped b m (r.permission_bounds).max) rs h,
  clamp_matches-Within b rs ms h,
)

-- who a candidate is, whatever it may do
abbrev pub identity : ResolvedAuth → PublicKey × KeyStatus
identity m = (m.public_key, m.key_status)

clamp_matches-identity :
    (o : Option PermissionBounds) (ms : List ResolvedAuth)
    → map identity (clamp_matches o ms) ≡ map identity ms
clamp_matches-identity none ms = refl
clamp_matches-identity (some b) [] = refl
clamp_matches-identity (some b) (m ∷ ms) =
    ap (λ rest. identity m ∷ rest) (clamp_matches-identity (some b) ms)

uncapped-Within :
    (rs : List DelegatedTreeRef) (ms : List ResolvedAuth)
    → All (λ r. capped none (r.permission_bounds).max ≡ true) rs
    → All (Within rs) ms
uncapped-Within rs [] h = tt
uncapped-Within rs (m ∷ ms) h =
    (All-map (λ r x. absurd (grind arith)) rs h, uncapped-Within rs ms h)

capped-Within :
    (o : Option PermissionBounds) (rs : List DelegatedTreeRef) (ms : List ResolvedAuth)
    → All (λ r. capped o (r.permission_bounds).max ≡ true) rs
    → All (Within rs) (clamp_matches o ms)
capped-Within none = uncapped-Within
capped-Within (some b) = clamp_matches-Within b

clamped-Within :
    (o : Option PermissionBounds) (rs : List DelegatedTreeRef) (found ms : List ResolvedAuth)
    → o ≡ bounds_of none rs
    → ms ≡ clamp_matches o found
    → All (Within rs) ms
clamped-Within o rs found ms e clamped =
    let below : All (λ r. capped o (r.permission_bounds).max ≡ true) rs =
      subst (λ x. All (λ r. capped x (r.permission_bounds).max ≡ true) rs) (sym e)
        (bounds_of-All none rs) in
    subst (All (Within rs)) (sym clamped) (capped-Within o rs found below)

module _ (trees : Trees) where
  -- A path followed from some settings: each step's reference is declared in the settings reached so
  -- far, its claimed tips are few and not behind the declared ones, and the next settings are those
  -- of the referenced tree as of the claimed tips.
  pub data Follows
      : AuthSettings → List DelegationStep → List DelegatedTreeRef → AuthSettings → Type 0 where
    arrived : {s : AuthSettings} → Follows s [] [] s
    followed :
        {s next last : AuthSettings} {step : DelegationStep} {steps : List DelegationStep}
        {r : DelegatedTreeRef} {rs : List DelegatedTreeRef}
        → length step.tips ≤ 64
        → get_delegated_tree trees.parse_cid step.tree s ≡ ok r
        → trees.check_targets_reachable_from (r.tree).root step.tips (r.tree).tips ≡ some reachable
        → trees.auth_snapshot (r.tree).root step.tips ≡ some next
        → Follows next steps rs last
        → Follows s (step ∷ steps) (r ∷ rs) last

  take_step-parts :
      (step : DelegationStep) (s next : AuthSettings) (r : DelegatedTreeRef)
      → take_step trees step s ≡ ok (r, next)
      → (length step.tips ≤ 64)
        × (get_delegated_tree trees.parse_cid step.tree s ≡ ok r)
        × (trees.check_targets_reachable_from (r.tree).root step.tips (r.tree).tips
            ≡ some reachable)
        × (trees.auth_snapshot (r.tree).root step.tips ≡ some next)
  unfolding take_step pinned_settings
  take_step-parts step s next r h = ground arith

  take_steps-Follows :
      (steps : List DelegationStep) (s : AuthSettings) (o : Option PermissionBounds)
      (q : AuthSettings × Option PermissionBounds)
      → take_steps trees steps s o ≡ ok q
      → (rs : List DelegatedTreeRef) × (q.1 ≡ bounds_of o rs) × Follows s steps rs q.0
  take_steps-Follows [] s o q h =
      let e : (s, o) ≡ q = unfold take_steps in cc in rw (sym e) ([], refl, arrived)
  take_steps-Follows (step ∷ steps) s o q h =
      let ((r, next), taken, rest) =
        bind-ok (take_step trees step s)
          (λ t. take_steps trees steps t.1 (some (combine_bounds o (t.0).permission_bounds))) q
          (unfold take_steps in h) in
      let (rs, bounds, path) =
        take_steps-Follows steps next (some (combine_bounds o r.permission_bounds)) q rest in
      let (few, declared, floor, snapshot) = take_step-parts step s next r taken in
      (r ∷ rs, bounds, followed few declared floor snapshot path)

  some_match-ok :
      (h : KeyHint) (o : Option PermissionBounds) (found ms : List ResolvedAuth)
      → (some_match h found >>= λ m. ok (clamp_matches o m)) ≡ ok ms
      → ms ≡ clamp_matches o found
  some_match-ok h o [] ms e = absurd (unfold some_match in grind arith)
  some_match-ok h o (m ∷ rest) ms e = unfold some_match in cc

  -- the end of the resolution, after the steps
  abbrev finish : KeyHint → AuthSettings × Option PermissionBounds → Checked (List ResolvedAuth)
  finish h q = do
    found ← resolve_hint trees.decodes h q.0
    matches ← some_match h found
    ok (clamp_matches q.1 matches)

  resolve-guards :
      (step : DelegationStep) (steps : List DelegationStep) (h : KeyHint) (s : AuthSettings)
      (ms : List ResolvedAuth)
      → resolve_delegation_path trees (step ∷ steps) h s ≡ ok ms
      → (length (step ∷ steps) ≤ 10)
        × (h.is_global ≡ false)
        × (take_steps trees (step ∷ steps) s none >>= finish h) ≡ ok ms
  unfolding resolve_delegation_path
  resolve-guards step steps h s ms e = ground arith

  finish-parts :
      (h : KeyHint) (q : AuthSettings × Option PermissionBounds) (ms : List ResolvedAuth)
      → finish h q ≡ ok ms
      → (found : List ResolvedAuth) × (resolve_hint trees.decodes h q.0 ≡ ok found)
        × (ms ≡ clamp_matches q.1 found)
  unfolding some_match
  finish-parts h q ms e =
      let (found, resolves, rest) =
        bind-ok (resolve_hint trees.decodes h q.0)
          (λ f. some_match h f >>= λ m. ok (clamp_matches q.1 m)) ms e in
      (found, resolves, some_match-ok h q.1 found ms rest)

  -- A delegation path that resolves has at most ten steps and no global hint. Each of its references
  -- is declared in the settings reached before it, its claimed tips (at most 64) are not behind the
  -- declared ones, and the settings after it are the referenced tree's as of those tips. No candidate
  -- has a permission above the maximum of any of these references, and the candidates are, with
  -- their keys and status, those that the final hint has in the last tree.
  pub resolve_delegation_path-Within :
      (steps : List DelegationStep) (h : KeyHint) (s : AuthSettings) (ms : List ResolvedAuth)
      → resolve_delegation_path trees steps h s ≡ ok ms
      → (length steps ≤ 10)
        × (h.is_global ≡ false)
        × (rs : List DelegatedTreeRef) × (last : AuthSettings) × Follows s steps rs last
        × All (Within rs) ms
        × (found : List ResolvedAuth) × (resolve_hint trees.decodes h last ≡ ok found)
        × (map identity ms ≡ map identity found)
  resolve_delegation_path-Within [] h s ms e = absurd (unfold resolve_delegation_path in cc)
  resolve_delegation_path-Within (step ∷ steps) h s ms e =
      let (short, concrete, chain) = resolve-guards step steps h s ms e in
      let (q, taken, done) = bind-ok (take_steps trees (step ∷ steps) s none) (finish h) ms chain in
      let (rs, bounds, path) = take_steps-Follows (step ∷ steps) s none q taken in
      let (found, resolves, clamped) = finish-parts h q ms done in
      (
        short,
        concrete,
        rs,
        q.0,
        path,
        clamped-Within q.1 rs found ms bounds clamped,
        found,
        resolves,
        ap (map identity) clamped ∙ clamp_matches-identity q.1 found,
      )

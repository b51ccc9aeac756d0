-- ===== src/Auth/Access/Laws.antt =====
-- About the permission of an identity, crates/lib/src/auth/validation/permissions.rs.
use eidetica.Base.{
  ◌≡◌, refl, sym, ◌∙◌, ap, String, List, [], ◌∷◌, Bool, true, false, not, ◌||◌, Option, none, some,
  ◌⊎◌, inl, inr, All, Exists, Bool-cases, Option-cases, arith,
}
use eidetica.Base.Outcome.{ok, err, ok_or, ◌>>◌}
use eidetica.Auth.Permission.{Permission, le_perm, max_perm, cmp}
use eidetica.Auth.Key.{PublicKey, AuthKey, KeyHint, hint_from_pubkey, direct, ResolvedAuth}
use eidetica.Auth.Error.{AuthError, Checked, key_not_found, invalid_auth_configuration}
use eidetica.Auth.Settings.{AuthSettings, get_key_by_pubkey, get_global_permission}
use eidetica.Auth.Settings.Resolve.{resolve_hint, resolved}
use eidetica.Auth.Delegation.{Trees, guard}
use eidetica.Auth.Access.{
  counts_for, max_with, max_of, select_effective_permission, claims_other, names_nothing, hint_name,
  select_from, first_some, global_identity, listed_identity, resolve_identity_permission,
}

-- a candidate that gives the permission to the key
abbrev pub Grants : PublicKey → Permission → ResolvedAuth → Type 0
Grants k p r = (counts_for k r ≡ true) × (r.effective_permission ≡ p)

-- a candidate that does not count for the key, or gives no more than the permission
abbrev pub at_most : PublicKey → Permission → ResolvedAuth → Bool
at_most k p r = not (counts_for k r) || le_perm r.effective_permission p

max_with-top :
    (p q : Permission) (o : Option Permission)
    → max_with p o ≡ some q
    → (le_perm p q ≡ true) × ((p ≡ q) ⊎ (o ≡ some q))
unfolding max_perm le_perm cmp
max_with-top p q o h = ground arith

max_with-some : (p : Permission) (o : Option Permission) (h : max_with p o ≡ none) → ⊥
max_with-some p (some q) h = ground arith
max_with-some p none h = ground arith

select-cons_yes :
    (k : PublicKey) (r : ResolvedAuth) (rs : List ResolvedAuth)
    → counts_for k r ≡ true
    → select_effective_permission (r ∷ rs) k
      ≡ max_with r.effective_permission (select_effective_permission rs k)
unfolding select_effective_permission max_of
select-cons_yes k r rs h = rw h

select-cons_no :
    (k : PublicKey) (r : ResolvedAuth) (rs : List ResolvedAuth)
    → counts_for k r ≡ false
    → select_effective_permission (r ∷ rs) k ≡ select_effective_permission rs k
unfolding select_effective_permission max_of
select-cons_no k r rs h = rw h

-- The permission selected for a key is that of one of the candidates with that key that grant access.
select-Grants :
    (k : PublicKey) (p : Permission) (rs : List ResolvedAuth)
    → select_effective_permission rs k ≡ some p
    → Exists (Grants k p) rs
select-Grants k p [] h = absurd (unfold select_effective_permission max_of in grind arith)
select-Grants k p (r ∷ rs) h = elim (Bool-cases (counts_for k r)) [
  | inr n ↦ Exists.there (select-Grants k p rs (sym (select-cons_no k r rs n) ∙ h))
  | inl y ↦
      elim (max_with-top r.effective_permission p (select_effective_permission rs k)
        (sym (select-cons_yes k r rs y) ∙ h)).1 [
          | inl e ↦ Exists.here (y, e)
          | inr e ↦ Exists.there (select-Grants k p rs e)
        ]
]

abbrev top_within : Option Permission → Permission → Bool
top_within none p = true
top_within (some q) p = le_perm q p

max_with-within :
    (x p : Permission) (o : Option Permission)
    → top_within (max_with x o) p ≡ true
    → (le_perm x p ≡ true) × (top_within o p ≡ true)
unfolding max_perm le_perm cmp
max_with-within x p none h = ground arith
max_with-within x p (some q) h = ground arith

select-within :
    (k : PublicKey) (p : Permission) (rs : List ResolvedAuth)
    → top_within (select_effective_permission rs k) p ≡ true
    → All (λ r. at_most k p r ≡ true) rs
select-within k p [] h = tt
select-within k p (r ∷ rs) h = elim (Bool-cases (counts_for k r)) [
  | inr n ↦
      let rest = ap (λ o. top_within o p) (sym (select-cons_no k r rs n)) ∙ h in
      (rw n refl, select-within k p rs rest)
  | inl y ↦
      let both =
        max_with-within r.effective_permission p (select_effective_permission rs k)
          (ap (λ o. top_within o p) (sym (select-cons_yes k r rs y)) ∙ h) in
      (rw (y, both.0) refl, select-within k p rs both.1)
]

abbrev pub candidates : Checked (List ResolvedAuth) → List ResolvedAuth
candidates (ok rs) = rs
candidates (err e) = []

global_identity-active :
    (s : AuthSettings) (p : Permission)
    → global_identity s ≡ ok p
    → get_global_permission s ≡ some p
unfolding global_identity get_global_permission
global_identity-active s p h = ground arith

chosen :
    (k : PublicKey) (p : Permission) (c : Checked (List ResolvedAuth)) (g : Option Permission)
    → first_some (select_from c k) g ≡ some p
    → (g ≡ some p) ⊎ Exists (Grants k p) (candidates c)
chosen k p (err e) g h = inl h
chosen k p (ok rs) g h = elim (Option-cases (select_effective_permission rs k)) [
  | inl n ↦ inl (sym (ap (λ o. first_some o g) n) ∙ h)
  | inr (q, y) ↦ inr (select-Grants k p rs (y ∙ sym (ap (λ o. first_some o g) y) ∙ h))
]

guarded-some :
    (x y : AuthError) (b : Bool) (p : Permission) (o : Option Permission)
    → (guard x b >> ok_or y o) ≡ ok p
    → o ≡ some p
guarded-some x y b p o h = ground arith

module _ (decodes : String → Bool) (instance_of : Option Trees) where
  listed-granted :
      (k : PublicKey) (h : KeyHint) (s : AuthSettings) (p : Permission)
      → listed_identity decodes instance_of k h s ≡ ok p
      → (get_global_permission s ≡ some p)
        ⊎ Exists (Grants k p) (candidates (resolve_hint decodes h s))
  unfolding listed_identity
  listed-granted k h s p e = chosen k p (resolve_hint decodes h s) (get_global_permission s) (
      guarded-some invalid_auth_configuration (key_not_found (hint_name k h.name))
        (not (names_nothing h.pubkey h.name)) p _ e)

  -- A direct identity that is accepted claims no other key, and its permission is that of an active
  -- candidate with the proven key, or that of the active wildcard grant.
  pub direct_identity-granted :
      (k : PublicKey) (h : KeyHint) (s : AuthSettings) (p : Permission)
      → resolve_identity_permission decodes instance_of k (direct h) s ≡ ok p
      → (claims_other k h.pubkey ≡ false)
        × ((get_global_permission s ≡ some p)
            ⊎ Exists (Grants k p) (candidates (resolve_hint decodes h s)))
  unfolding resolve_identity_permission
  direct_identity-granted k h s p e =
      ground (arith, global_identity-active s p, listed-granted k h s p)

pub resolve_hint-pubkey :
    (decodes : String → Bool) (k : PublicKey) (key : AuthKey) (s : AuthSettings)
    → get_key_by_pubkey k s ≡ ok key
    → resolve_hint decodes (hint_from_pubkey k) s ≡ ok (resolved k key ∷ [])
unfolding resolve_hint hint_from_pubkey
resolve_hint-pubkey decodes k key s e = rw e refl

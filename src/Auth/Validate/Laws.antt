-- ===== src/Auth/Validate/Laws.antt =====
-- About the validation of entries, crates/lib/src/auth/validation/entry.rs.
use eidetica.Base.{
  ◌≡◌, refl, sym, ◌∙◌, ap, String, List, [], ◌∷◌, Bool, true, false, not, ◌||◌, Option, some, ◌⊎◌,
  inl, inr, ◌↔◌, if◌then◌else◌, any, map, Exists, Bool-cases, arith,
}
use eidetica.Base.Outcome.{ok, err}
use eidetica.Entry.{Entry, SubTreeNode}
use eidetica.Auth.Permission.{IsU32, revoked}
use eidetica.Auth.Key.{
  PublicKey, AuthKey, KeyHint, direct, ResolvedAuth, grants_access, malformed_reason, is_unsigned,
  is_set, is_some,
}
use eidetica.Auth.Error.{Checked}
use eidetica.Auth.Settings.{AuthSettings, get_key_by_pubkey, revoke_key, store_key}
use eidetica.Auth.Settings.Paths.{IsBase64}
use eidetica.Auth.Settings.Resolve.{resolved, resolve_hint}
use eidetica.Auth.Settings.Laws.{revoke_key-store_key, get_key-store_key_self}
use eidetica.Auth.Delegation.{Trees}
use eidetica.Auth.Access.{resolve_sig_key, check_permissions}
use eidetica.Auth.Access.Laws.{candidates}
use eidetica.Auth.Validate.{has_auth, operation_of, try_candidates, try_resolved, validate_entry}

any-map :
    (p : String → Bool) (ns : List SubTreeNode)
    → any p (map SubTreeNode.name ns) ≡ any (λ n. p (SubTreeNode.name n)) ns
any-map p [] = refl
any-map p (n ∷ ns) = ap (λ b. p (SubTreeNode.name n) || b) (any-map p ns)

module _ (decodes : String → Bool) (instance_of : Option Trees)
    (verify : Entry → PublicKey → Bool) where
  -- a candidate that grants access, whose key made the signature, and that may do the operation
  abbrev pub Authorises : Entry → ResolvedAuth → Type 0
  Authorises e r =
      (grants_access r ≡ true)
      × (verify e r.public_key ≡ true)
      × (check_permissions r (operation_of e) ≡ true)

  -- one turn of the loop: the candidate is good enough, or the loop goes on
  decide_candidate :
      (e : Entry) (r : ResolvedAuth)
      → Authorises e r
        ⊎ ((rs : List ResolvedAuth)
            → try_candidates decodes instance_of verify e (operation_of e) (r ∷ rs)
              ≡ try_candidates decodes instance_of verify e (operation_of e) rs)
  unfolding try_candidates
  decide_candidate e r = elim (Bool-cases (grants_access r)) [
    | inr g ↦ inr (λ rs. rw g refl)
    | inl g ↦ elim (Bool-cases (verify e r.public_key)) [
      | inr v ↦ inr (λ rs. rw (g, v) refl)
      | inl v ↦ elim (Bool-cases (check_permissions r (operation_of e))) [
        | inr p ↦ inr (λ rs. rw (g, v, p) refl)
        | inl p ↦ inl (g, v, p)
      ]
    ]
  ]

  try_candidates-Authorises :
      (e : Entry) (rs : List ResolvedAuth)
      → try_candidates decodes instance_of verify e (operation_of e) rs ≡ true
      → Exists (Authorises e) rs
  try_candidates-Authorises e [] h = absurd (unfold try_candidates in grind arith)
  try_candidates-Authorises e (r ∷ rs) h = elim (decide_candidate e r) [
    | inl a ↦ Exists.here a
    | inr skip ↦ Exists.there (try_candidates-Authorises e rs (sym (skip rs) ∙ h))
  ]

  Authorises-try_candidates :
      (e : Entry) (rs : List ResolvedAuth)
      → Exists (Authorises e) rs
      → try_candidates decodes instance_of verify e (operation_of e) rs ≡ true
  Authorises-try_candidates e [] x = elim x [ ]
  Authorises-try_candidates e (r ∷ rs) (Exists.here (g, v, p)) =
      unfold try_candidates in rw (g, v, p) refl
  Authorises-try_candidates e (r ∷ rs) (Exists.there x) =
      let rest = Authorises-try_candidates e rs x in
      elim (decide_candidate e r) [
        | inl (g, v, p) ↦ unfold try_candidates in rw (g, v, p) refl
        | inr skip ↦ skip rs ∙ rest
      ]

  -- what an accepted entry is: well formed, and either unsigned where no key and no active wildcard
  -- grant is configured, or signed by a candidate that authorises it
  abbrev pub Accepted : Entry → AuthSettings → Type 0
  Accepted e s =
      (is_some (malformed_reason e.sig) ≡ false)
      × (((is_unsigned e.sig ≡ true) × (has_auth s ≡ false))
          ⊎ ((is_unsigned e.sig ≡ false)
              × (has_auth s ≡ true)
              × Exists (Authorises e)
                  (candidates (resolve_sig_key decodes instance_of (e.sig).key s))))

  try_resolved-Authorises :
      (e : Entry) (c : Checked (List ResolvedAuth))
      → (try_resolved decodes instance_of verify e c ≡ true) ↔ Exists (Authorises e) (candidates c)
  try_resolved-Authorises e (ok rs) =
      (try_candidates-Authorises e rs, Authorises-try_candidates e rs)
  try_resolved-Authorises e (err x) = (λ h. absurd (grind arith), λ x. elim x [ ])

  -- An entry is accepted exactly when it is well formed and either unsigned in a database without
  -- authentication, or signed in one with it, where an active candidate key made the signature and
  -- has the permission that its writes need.
  pub validate_entry-Accepted :
      (e : Entry) (s : AuthSettings)
      → (validate_entry decodes instance_of verify e s ≡ true) ↔ Accepted e s
  unfolding validate_entry
  validate_entry-Accepted e s =
      let (to, from) =
        try_resolved-Authorises e (resolve_sig_key decodes instance_of (e.sig).key s) in
      (λ h. ground (arith, to), λ a. ground (arith, from))

named-is_unsigned :
    (e : Entry) (h : KeyHint) (k : PublicKey)
    → h.pubkey ≡ some k
    → (e.sig).key ≡ direct h
    → is_unsigned e.sig ≡ false
unfolding is_unsigned is_set
named-is_unsigned e h k p signed = rw (signed, p) refl

resolve_sig_key-pubkey :
    (decodes : String → Bool) (instance_of : Option Trees) (h : KeyHint) (k : PublicKey)
    (key : AuthKey) (s : AuthSettings)
    → h.pubkey ≡ some k
    → h.is_global ≡ false
    → get_key_by_pubkey k s ≡ ok key
    → resolve_sig_key decodes instance_of (direct h) s ≡ ok (resolved k key ∷ [])
unfolding resolve_sig_key resolve_hint
resolve_sig_key-pubkey decodes i h k key s p plain e = rw (plain, p, e) refl

refused_anyway :
    (m u a t : Bool)
    → u ≡ false
    → t ≡ false
    → (if m then false else if u then not a else if a then t else false) ≡ false
refused_anyway m u a t hu ht = ground arith

-- After a key, of a Base64 text and with a u32 priority, that could be read is revoked, no entry is
-- accepted whose direct key hint gives it as the public key and is not the hint of the wildcard grant,
-- whatever name the hint gives, and whatever the entry's signature and its writes.
pub revoke_key-validate_entry :
    (decodes : String → Bool) (instance_of : Option Trees) (verify : Entry → PublicKey → Bool)
    (e : Entry) (h : KeyHint) (k : PublicKey) (key : AuthKey) (s : AuthSettings)
    → IsBase64 k
    → IsU32 key.permissions
    → get_key_by_pubkey k s ≡ ok key
    → (e.sig).key ≡ direct h
    → h.pubkey ≡ some k
    → h.is_global ≡ false
    → validate_entry decodes instance_of verify e (revoke_key k s).1 ≡ false
unfolding validate_entry
revoke_key-validate_entry decodes i verify e h k key s b u stored signed names plain =
    let gone : AuthKey = record key { status = revoked } in
    let s2 = store_key k gone s in
    let nobody : try_resolved decodes i verify e (ok (resolved k gone ∷ [])) ≡ false =
      unfold try_candidates grants_access in refl in
    rw (revoke_key-store_key k key s stored) (
      refused_anyway (is_some (malformed_reason e.sig)) (is_unsigned e.sig) (has_auth s2)
        (try_resolved decodes i verify e (resolve_sig_key decodes i (e.sig).key s2))
        (named-is_unsigned e h k names signed)
        (rw
          (
            signed,
            resolve_sig_key-pubkey decodes i h k gone s2 names plain
                (get_key-store_key_self k gone s b u),
          )
          nobody))

-- ===== src/Backend/Storage/Status.antt =====
-- About statuses, the tips of subtrees and entries that are put again, in storage.rs and mod.rs of
-- crates/lib/src/backend/database/in_memory/.
use eidetica.Base.{
  String, List, [], ◌∷◌, Bool, true, not, ◌&&◌, some, if◌then◌else◌, str_eq, eq_refl, eq_iff, ◌≡◌,
  refl, ap, ◌∙◌, arith,
}
use eidetica.Base.Outcome.{ok}
use eidetica.Entry.{Entry}
use eidetica.Auth.Key.{is_some}
use eidetica.Backend.Assoc.{find, change, or_default, find-change}
use eidetica.Backend.Storage.{
  unverified, TreeTipsCache, InMemoryInner, empty_cache, is_in, contains, subtree_tips_of,
  update_subtrees, set_subtree_tips, put_new, put, get_verification_status,
}

module _ (id_of : Entry → String) where
  -- A new entry is stored as Unverified, an entry that is held already keeps its status, and no other
  -- entry's status changes.
  put-status :
      (e : Entry) (s : InMemoryInner) (id : String)
      → get_verification_status id (put id_of e s) ≡ (
          if not (contains id_of (id_of e) s.entries) && str_eq (id_of e) id
          then ok unverified
          else get_verification_status id s)
  unfolding put put_new get_verification_status
  put-status e s id =
      ground (arith, find-change (id_of e) id unverified (λ old. unverified) s.verification_status)

  contains-put :
      (e : Entry) (s : InMemoryInner) → contains id_of (id_of e) (put id_of e s).entries ≡ true
  unfolding put put_new contains
  contains-put e s = ground (arith, eq_refl (id_of e))

  put-held :
      (e : Entry) (s : InMemoryInner)
      → contains id_of (id_of e) s.entries ≡ true
      → put id_of e s ≡ s
  unfolding put
  put-held e s h = rw h

  -- Storing an entry a second time changes nothing: not its status, not the tips.
  put-put : (e : Entry) (s : InMemoryInner) → put id_of e (put id_of e s) ≡ put id_of e s
  put-put e s = put-held e (put id_of e s) (contains-put e s)

  same_subtree :
      (es : List Entry) (t n name : String)
      → str_eq n name ≡ true
      → subtree_tips_of id_of t n es ≡ subtree_tips_of id_of t name es
  same_subtree es t n name h = ap (λ m. subtree_tips_of id_of t m es) ((eq_iff n name).0 h)

  pub find-update_subtrees :
      (es : List Entry) (t name : String) (names : List String)
      (cache : List (String × List String))
      → find name (update_subtrees id_of es t names cache)
        ≡ (if is_in name names then some (subtree_tips_of id_of t name es) else find name cache)
  unfolding update_subtrees
  find-update_subtrees es t name [] cache = refl
  find-update_subtrees es t name (n ∷ names) cache =
      find-update_subtrees es t name names (change n [] (λ old. subtree_tips_of id_of t n es) cache)
      ∙ ground (
        arith,
        find-change n name [] (λ old. subtree_tips_of id_of t n es) cache,
        same_subtree es t n name,
      )

  -- the tips cached for a subtree
  abbrev pub cached_subtree_tips : String → String → InMemoryInner → List String
  cached_subtree_tips t name s =
      or_default [] (find name (or_default empty_cache (find t s.tips)).subtree_tips)

  changed_subtree :
      (es : List Entry) (t name : String) (names : List String)
      (tips : List (String × TreeTipsCache))
      → is_in name names ≡ true
      → or_default [] (
          find name
            (or_default empty_cache (
              find t (change t empty_cache (set_subtree_tips id_of es t names) tips))).subtree_tips)
        ≡ subtree_tips_of id_of t name es
  changed_subtree es t name names tips h =
      let old = or_default empty_cache (find t tips) in
      ground (
        arith,
        find-change t t empty_cache (set_subtree_tips id_of es t names) tips,
        eq_refl t,
        find-update_subtrees es t name names old.subtree_tips,
        h,
      )

abbrev pub has_status : String → InMemoryInner → Bool
has_status id s = is_some (find id s.verification_status)

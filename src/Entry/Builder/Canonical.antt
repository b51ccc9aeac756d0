-- ===== src/Entry/Builder/Canonical.antt =====
-- About the order in which `build` of crates/lib/src/entry/builder.rs puts the parents.
use eidetica.Base.{
  String, List, [], ◌∷◌, true, false, map, All, All-map, any-All, str_eq, str_eq_comm, eq_refl,
  eq_iff, ◌≡◌, refl, sym, subst, ap, ◌∙◌, Bool-cases, inl, inr, arith,
}
use eidetica.Base.Outcome.{ok, map_err, ◌>>◌}
use eidetica.Base.Sort.{
  has, has-dedup, sort_by, dedup, dedup_after, not_after, Sorted, Sorted-sort_by, any-sort_by,
}
use eidetica.Entry.{SubTreeNode}
use eidetica.Entry.Order.{IdOrder}
use eidetica.Entry.Validate.{validate}
use eidetica.Entry.Builder.{
  invalid_entry, EntryBuilder, canonical, canonical_node, assemble, build, compare_names,
}

module _ (order : IdOrder) where
  open order use {compare_ids}

  abbrev Before : String → String → Type 0
  Before x y = (not_after (compare_ids x y) ≡ true) × (str_eq x y ≡ false)

  -- each id comes strictly before the later ones
  abbrev Strict : List String → Type 0
  Strict [] = Unit
  Strict (x ∷ xs) = All (Before x) xs × Strict xs

  Before-trans : (x y z : String) → Before x y → Before y z → Before x z
  Before-trans x y z (h, n) (k, m) = (
    order.trans x y z h k,
    elim (Bool-cases (str_eq x z)) [
      | inl e ↦
          let back = subst (λ u. not_after (compare_ids y u) ≡ true) (sym ((eq_iff x z).0 e)) k in
          absurd (cc (n, (eq_iff x y).1 (order.antisym x y h back)))
      | inr d ↦ d
    ],
  )

  Strict-dedup_after :
      (x : String) (xs : List String) → Sorted compare_ids (x ∷ xs) → Strict (x ∷ dedup_after x xs)
  Strict-dedup_after x [] h = (tt, tt)
  Strict-dedup_after x (y ∷ ys) h =
      let rest = Strict-dedup_after y ys h.1 in
      elim (Bool-cases (str_eq x y)) [
        | inl e ↦ rw e (subst (λ u. Strict (u ∷ dedup_after y ys)) (sym ((eq_iff x y).0 e)) rest)
        | inr n ↦
            let first : Before x y = (h.0.0, n) in
            rw n
              ((first, All-map (λ z b. Before-trans x y z first b) (dedup_after y ys) rest.0), rest)
      ]

  Strict-dedup : (xs : List String) → Sorted compare_ids xs → Strict (dedup xs)
  Strict-dedup [] h = tt
  Strict-dedup (x ∷ xs) h = Strict-dedup_after x xs h

  -- what is in such a list comes after its head
  tail-Before : (x v : String) (xs : List String) → All (Before x) xs → has v xs ≡ true → Before x v
  tail-Before x v xs all h =
      let (z, e, b) = any-All (Before x) (λ id. str_eq id v) xs h all in
      subst (Before x) ((eq_iff z v).0 e) b

  head-same :
      (x y : String) (xs ys : List String)
      → Strict (x ∷ xs)
      → Strict (y ∷ ys)
      → ((v : String) → has v (x ∷ xs) ≡ has v (y ∷ ys))
      → str_eq x y ≡ true
  head-same x y xs ys s t h = elim (Bool-cases (str_eq x y)) [
    | inl e ↦ e
    | inr n ↦
        let in_ys : has x ys ≡ true = ground (arith, h x, eq_refl x, str_eq_comm x y) in
        let in_xs : has y xs ≡ true = ground (arith, h y, eq_refl y, str_eq_comm x y) in
        let b = tail-Before x y xs s.0 in_xs in
        let c = tail-Before y x ys t.0 in_ys in (eq_iff x y).1 (order.antisym x y b.0 c.0)
  ]

  not-tail :
      (x v : String) (xs : List String) → All (Before x) xs → str_eq x v ≡ true → has v xs ≡ false
  not-tail x v xs all e = elim (Bool-cases (has v xs)) [
    | inl y ↦ absurd (cc ((tail-Before x v xs all y).1, e))
    | inr n ↦ n
  ]

  Strict-unique :
      (xs ys : List String) → Strict xs → Strict ys → ((v : String) → has v xs ≡ has v ys) → xs ≡ ys
  Strict-unique [] [] s t h = refl
  Strict-unique [] (y ∷ ys) s t h = absurd (cc (h y, eq_refl y))
  Strict-unique (x ∷ xs) [] s t h = absurd (cc (h x, eq_refl x))
  Strict-unique (x ∷ xs) (y ∷ ys) s t h =
      let e = head-same x y xs ys s t h in
      let same : x ≡ y = (eq_iff x y).0 e in
      let tails = Strict-unique xs ys s.1 t.1 (λ v. elim (Bool-cases (str_eq x v)) [
        | inl k ↦
            not-tail x v xs s.0 k ∙ sym (not-tail y v ys t.0 (ap (λ u. str_eq u v) (sym same) ∙ k))
        | inr k ↦ ground (arith, h v, ap (λ u. str_eq u v) same)
      ]) in
      ap (λ u. u ∷ xs) same ∙ ap (λ us. y ∷ us) tails

  -- lists with the same ids come to the same
  canonical-same :
      (xs ys : List String)
      → ((v : String) → has v xs ≡ has v ys)
      → canonical compare_ids xs ≡ canonical compare_ids ys
  canonical-same xs ys h =
      Strict-unique (canonical compare_ids xs) (canonical compare_ids ys)
        (Strict-dedup _ (Sorted-sort_by compare_ids order.total order.trans xs))
        (Strict-dedup _ (Sorted-sort_by compare_ids order.total order.trans ys))
        (λ v. has-canonical v xs ∙ h v ∙ sym (has-canonical v ys))
    where
      has-canonical : (v : String) (xs : List String) → has v (canonical compare_ids xs) ≡ has v xs
      has-canonical v xs =
          has-dedup v (sort_by compare_ids xs) ∙ any-sort_by compare_ids (λ id. str_eq id v) xs

  -- subtrees that differ at most in how often and in which order their parents are given
  abbrev pub AlikeNodes : List SubTreeNode → List SubTreeNode → Type 0
  AlikeNodes [] [] = Unit
  AlikeNodes [] (n ∷ ns) = ¬ Unit {0}
  AlikeNodes (m ∷ ms) [] = ¬ Unit {0}
  AlikeNodes (m ∷ ms) (n ∷ ns) =
      (m.name ≡ n.name)
      × (m.payload ≡ n.payload)
      × (m.height ≡ n.height)
      × ((v : String) → has v m.parents ≡ has v n.parents)
      × AlikeNodes ms ns

  -- builders that differ at most so
  pub record Alike (b c : EntryBuilder) : Type 0 where
    pub same_root : (b.tree).root ≡ (c.tree).root
    pub same_metadata : (b.tree).metadata ≡ (c.tree).metadata
    pub same_height : (b.tree).height ≡ (c.tree).height
    pub same_parents : (v : String) → has v (b.tree).parents ≡ has v (c.tree).parents
    pub same_subtrees : AlikeNodes b.subtrees c.subtrees
    pub same_sig : b.sig ≡ c.sig

  node-path :
      (m n : SubTreeNode)
      → m.name ≡ n.name
      → m.parents ≡ n.parents
      → m.payload ≡ n.payload
      → m.height ≡ n.height
      → m ≡ n
  node-path m n a b c d = λ i. record { name = a i; parents = b i; payload = c i; height = d i }

  map-canonical :
      (ms ns : List SubTreeNode)
      → AlikeNodes ms ns
      → map (canonical_node compare_ids) ms ≡ map (canonical_node compare_ids) ns
  map-canonical [] [] h = refl
  map-canonical [] (n ∷ ns) h = absurd (h tt)
  map-canonical (m ∷ ms) [] h = absurd (h tt)
  map-canonical (m ∷ ms) (n ∷ ns) (name, payload, height, parents, rest) =
      let ids = canonical-same m.parents n.parents parents in
      let tail = map-canonical ms ns rest in
      ap (λ (k : SubTreeNode). k ∷ map (canonical_node compare_ids) ms)
        (node-path _ _ name ids payload height)
      ∙ ap (λ (ks : List SubTreeNode). canonical_node compare_ids n ∷ ks) tail

  assemble-Alike :
      (b c : EntryBuilder) → Alike b c → assemble compare_ids b ≡ assemble compare_ids c
  assemble-Alike b c h =
      let ids = canonical-same (b.tree).parents (c.tree).parents h.same_parents in
      let nodes = map-canonical b.subtrees c.subtrees h.same_subtrees in
      λ i. record {
        tree = record {
          root = h.same_root i;
          parents = ids i;
          metadata = h.same_metadata i;
          height = h.same_height i;
        };
        subtrees = sort_by compare_names (nodes i);
        sig = h.same_sig i;
      }

  -- `build` answers the same for two builders that differ only in how often and in which order the
  -- parents are given, those of the entry and those in each subtree.
  pub build-Alike : (b c : EntryBuilder) → Alike b c → build compare_ids b ≡ build compare_ids c
  unfolding build
  build-Alike b c h = ap (λ e. map_err invalid_entry (validate e) >> ok e) (assemble-Alike b c h)

-- ===== src/Backend/Assoc.antt =====
-- `HashMap<String, V>` as a list of its entries, each key once, in an order that nothing relies on.
use eidetica.Base.{
  String, List, [], ◌∷◌, true, Option, none, some, if◌then◌else◌, str_eq, eq_iff, ◌≡◌, refl, sym,
  ap, ◌∙◌, arith,
}

-- equal texts compare alike
str_eq_left : (i k j : String) → str_eq i k ≡ true → str_eq i j ≡ str_eq k j
str_eq_left i k j h = ap (λ t. str_eq t j) ((eq_iff i k).0 h)

str_eq_both : (i k j : String) → str_eq i j ≡ true → str_eq k j ≡ true → str_eq i k ≡ true
str_eq_both i k j h g = (eq_iff i k).1 ((eq_iff i j).0 h ∙ sym ((eq_iff k j).0 g))

module _ {ℓ} {V : Type ℓ} where
  -- `HashMap::get`
  unfoldable pub find : String → List (String × V) → Option V
  find k [] = none
  find k ((j, v) ∷ rest) = let later = find k rest in if str_eq j k then some v else later

  -- `*entry(k).or_insert(v) = f(...)`: what is there is changed, what is missing is put there
  unfoldable pub change : String → V → (V → V) → List (String × V) → List (String × V)
  change k v f [] = (k, f v) ∷ []
  change k v f ((j, w) ∷ rest) =
      let later = change k v f rest in if str_eq j k then (j, f w) ∷ rest else (j, w) ∷ later

  abbrev pub or_default : V → Option V → V
  or_default v none = v
  or_default v (some w) = w

  -- what a change of one key leaves under any key
  pub find-change :
      (k j : String) (v : V) (f : V → V) (m : List (String × V))
      → find j (change k v f m)
        ≡ (if str_eq k j then some (f (or_default v (find j m))) else find j m)
  unfolding find change
  find-change k j v f [] = refl
  find-change k j v f ((i, w) ∷ rest) =
      ground (arith, find-change k j v f rest, str_eq_left i k j, str_eq_both i k j)

-- ===== src/Process/Variant/Print.antt =====
-- The texts of variants and of the values of parameters.
use compute_web_app.Prelude.{◌≡◌, refl, ap, ◌↔◌, List, [], ◌∷◌, ◌++◌, false, map, arith}
use compute_web_app.Prelude.Text.{Text, codes, text_eq, text_eq_refl}
use compute_web_app.Outcome.{ok}
use compute_web_app.Process.Variant.{
  ℤ, Double, Variant, integer, decimal, string, variants, Variants, end, item, to_integer,
  to_decimal, to_string, to_variants, print, print_rest, serialize_values, serialize_from,
}

-- Each text with a separator before it, and the texts with a separator between them.
abbrev pub preceded : Text → List Text → Text
preceded sep [] = []
preceded sep (t ∷ ts) = sep ++ (t ++ preceded sep ts)

abbrev pub join : Text → List Text → Text
join sep [] = []
join sep (t ∷ ts) = t ++ preceded sep ts

module _ {D : Type 0} (double : Double D) where
  abbrev pub texts : Variants D → List Text
  texts end = []
  texts (item v vs) = print double v ∷ texts vs

  print_rest-preceded : (vs : Variants D) → print_rest double vs ≡ preceded (codes ",") (texts vs)
  unfolding print
  print_rest-preceded end = refl
  print_rest-preceded (item v vs) =
      ap (λ (t : Text). codes "," ++ (print double v ++ t)) (print_rest-preceded vs)

  -- A list of variants is printed as its items with commas between them, nested lists too.
  pub print-join : (vs : Variants D) → print double (variants vs) ≡ join (codes ",") (texts vs)
  unfolding print
  print-join end = refl
  print-join (item v vs) = ap (◌++◌ (print double v)) (print_rest-preceded vs)

  -- A parameter and its value, as the command line has them.
  abbrev pub assignment : Text → Text × Variant D → Text
  assignment prefix (key, value) = prefix ++ (key ++ (codes " " ++ print double value))

  abbrev pub HasOthers : Text → List (Text × Variant D) → Type 0
  HasOthers first [] = Unit {0}
  HasOthers first ((key, value) ∷ rest) = (text_eq key first ≡ false) × HasOthers first rest

  serialize_from-preceded :
      (first prefix : Text) (values : List (Text × Variant D))
      → HasOthers first values
      → serialize_from double first prefix values
        ≡ preceded (codes " ") (map (assignment prefix) values)
  unfolding serialize_values
  serialize_from-preceded first prefix [] h = refl
  serialize_from-preceded first prefix ((key, value) ∷ rest) h = rw h.0 (
      ap (λ (t : Text). codes " " ++ (assignment prefix (key, value) ++ t))
        (serialize_from-preceded first prefix rest h.1))

  -- Where the first key does not occur again, as in a map, the values of parameters are serialized
  -- as the assignments in the map's order, with one space between them and none elsewhere.
  pub serialize_values-join :
      (key prefix : Text) (value : Variant D) (rest : List (Text × Variant D))
      → HasOthers key rest
      → serialize_values double ((key, value) ∷ rest) prefix
        ≡ join (codes " ") (map (assignment prefix) ((key, value) ∷ rest))
  unfolding serialize_values
  serialize_values-join key prefix value rest h = rw (text_eq_refl key) (
      ap (λ (t : Text). assignment prefix (key, value) ++ t)
        (serialize_from-preceded key prefix rest h))

module _ {D : Type 0} where
  -- Each conversion gives a value exactly where the variant was made of that value.
  pub conversions :
      (v : Variant D)
      → ((n : ℤ) → (to_integer v ≡ ok n) ↔ (v ≡ integer n))
        × ((x : D) → (to_decimal v ≡ ok x) ↔ (v ≡ decimal x))
        × ((s : Text) → (to_string v ≡ ok s) ↔ (v ≡ string s))
        × ((vs : Variants D) → (to_variants v ≡ ok vs) ↔ (v ≡ variants vs))
  unfolding to_integer to_decimal to_string to_variants
  conversions v = (λ n. ground arith, λ x. ground arith, λ s. ground arith, λ vs. ground arith)

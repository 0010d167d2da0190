-- ===== src/Process/TextMap.antt =====
-- `std::map` with texts as keys: a list in the order of the keys, as the map iterates.
use compute_web_app.Prelude.{
  ◌≡◌, refl, sym, List, [], ◌∷◌, Option, none, some, Bool, true, false, ltb, ◌==◌, arith,
  if◌then◌else◌, Bool-cases, inl, inr,
}
use compute_web_app.Prelude.Text.{Text, text_eq, text_eq→eq}

abbrev pub text_lt : Text → Text → Bool
text_lt [] [] = false
text_lt [] (y ∷ ys) = true
text_lt (x ∷ xs) [] = false
text_lt (x ∷ xs) (y ∷ ys) = if ltb x y then true else if x == y then text_lt xs ys else false

text_lt_irrefl : (s : Text) → text_lt s s ≡ false
text_lt_irrefl [] = refl
text_lt_irrefl (x ∷ xs) = ground (arith, text_lt_irrefl xs)

text_lt_trans : (s t u : Text) → text_lt s t ≡ true → text_lt t u ≡ true → text_lt s u ≡ true
text_lt_trans [] [] u h k = cc
text_lt_trans [] (y ∷ ys) [] h k = cc
text_lt_trans [] (y ∷ ys) (z ∷ zs) h k = refl
text_lt_trans (x ∷ xs) [] u h k = cc
text_lt_trans (x ∷ xs) (y ∷ ys) [] h k = cc
text_lt_trans (x ∷ xs) (y ∷ ys) (z ∷ zs) h k = ground (arith, text_lt_trans xs ys zs)

text_lt_total : (s t : Text) → text_lt s t ≡ false → text_lt t s ≡ false → s ≡ t
text_lt_total [] [] h k = refl
text_lt_total [] (y ∷ ys) h k = cc
text_lt_total (x ∷ xs) [] h k = cc
text_lt_total (x ∷ xs) (y ∷ ys) h k = ground (arith, text_lt_total xs ys)

text_lt→ne : (s t : Text) → text_lt s t ≡ true → text_eq s t ≡ false
text_lt→ne [] [] h = cc
text_lt→ne [] (y ∷ ys) h = refl
text_lt→ne (x ∷ xs) [] h = cc
text_lt→ne (x ∷ xs) (y ∷ ys) h = ground (arith, text_lt→ne xs ys)

pub text_eq_sym : (s t : Text) → text_eq s t ≡ text_eq t s
text_eq_sym [] [] = refl
text_eq_sym [] (y ∷ ys) = refl
text_eq_sym (x ∷ xs) [] = refl
text_eq_sym (x ∷ xs) (y ∷ ys) = ground (arith, text_eq_sym xs ys)

abbrev pub or_else {ℓ} : {A : Type ℓ} → Option A → Option A → Option A
or_else (some a) o = some a
or_else none o = o

module _ {V : Type 0} where
  -- map.insert(std::make_pair(k, v)): a key that is there keeps its value.
  unfoldable pub insert : Text → V → List (Text × V) → List (Text × V)
  insert k v [] = (k, v) ∷ []
  insert k v ((j, w) ∷ rest) =
      if text_lt k j
      then (k, v) ∷ (j, w) ∷ rest
      else if text_lt j k
      then (j, w) ∷ insert k v rest
      else (j, w) ∷ rest

  abbrev pub lookup : Text → List (Text × V) → Option V
  lookup k [] = none
  lookup k ((j, w) ∷ rest) = if text_eq j k then some w else lookup k rest

  -- Every key is above k; the keys rise.
  abbrev pub AllAbove : Text → List (Text × V) → Type 0
  AllAbove k [] = Unit {0}
  AllAbove k ((j, w) ∷ rest) = (text_lt k j ≡ true) × AllAbove k rest

  abbrev pub IsSorted : List (Text × V) → Type 0
  IsSorted [] = Unit {0}
  IsSorted ((j, w) ∷ rest) = AllAbove j rest × IsSorted rest

  AllAbove-lower :
      (k j : Text) (m : List (Text × V)) → text_lt k j ≡ true → AllAbove j m → AllAbove k m
  AllAbove-lower k j [] h a = tt
  AllAbove-lower k j ((i, w) ∷ rest) h a =
      (text_lt_trans k j i h a.0, AllAbove-lower k j rest h a.1)

  lookup-AllAbove : (k : Text) (m : List (Text × V)) → AllAbove k m → lookup k m ≡ none
  lookup-AllAbove k [] a = refl
  lookup-AllAbove k ((j, w) ∷ rest) a =
      rw (text_eq_sym j k, text_lt→ne k j a.0) (lookup-AllAbove k rest a.1)

  AllAbove-insert :
      (i k : Text) (v : V) (m : List (Text × V))
      → text_lt i k ≡ true
      → AllAbove i m
      → AllAbove i (insert k v m)
  unfolding insert
  AllAbove-insert i k v [] h a = (h, tt)
  AllAbove-insert i k v ((j, w) ∷ rest) h a = elim (Bool-cases (text_lt k j)) [
    | inl below ↦ rw below (h, a)
    | inr not_below ↦ elim (Bool-cases (text_lt j k)) [
      | inl above ↦ rw (not_below, above) (a.0, AllAbove-insert i k v rest h a.1)
      | inr same ↦ rw (not_below, same) a
    ]
  ]

  pub insert-IsSorted :
      (k : Text) (v : V) (m : List (Text × V)) → IsSorted m → IsSorted (insert k v m)
  unfolding insert
  insert-IsSorted k v [] s = (tt, tt)
  insert-IsSorted k v ((j, w) ∷ rest) s = elim (Bool-cases (text_lt k j)) [
    | inl below ↦ rw below ((below, AllAbove-lower k j rest below s.0), s)
    | inr not_below ↦ elim (Bool-cases (text_lt j k)) [
      | inl above ↦
          rw (not_below, above) (AllAbove-insert j k v rest above s.0, insert-IsSorted k v rest s.1)
      | inr same ↦ rw (not_below, same) s
    ]
  ]

  pub or_none : (o : Option V) → o ≡ or_else o none
  or_none none = refl
  or_none (some a) = refl

  found_first :
      (i k : Text) (v : V) (o : Option V)
      → (text_eq k i ≡ true → o ≡ none)
      → (if text_eq k i then some v else o) ≡ or_else o (if text_eq k i then some v else none)
  found_first i k v o h = elim (Bool-cases (text_eq k i)) [
    | inl same ↦ rw (same, h same) refl
    | inr other ↦ rw other (or_none o)
  ]

  below_all :
      (i k : Text) (m : List (Text × V)) → AllAbove k m → text_eq k i ≡ true → lookup i m ≡ none
  below_all i k m a same = rw (sym (text_eq→eq k i same)) (lookup-AllAbove k m a)

  -- A key that is inserted is found with its value, unless it was there before; every other key is
  -- found as before.
  pub lookup-insert :
      (i k : Text) (v : V) (m : List (Text × V))
      → IsSorted m
      → lookup i (insert k v m) ≡ or_else (lookup i m) (if text_eq k i then some v else none)
  unfolding insert
  lookup-insert i k v [] s = refl
  lookup-insert i k v ((j, w) ∷ rest) s = elim (Bool-cases (text_lt k j)) [
    | inl below ↦ rw below (
        found_first i k v (lookup i ((j, w) ∷ rest))
          (below_all i k ((j, w) ∷ rest) (below, AllAbove-lower k j rest below s.0)))
    | inr not_below ↦ elim (Bool-cases (text_lt j k)) [
      | inl above ↦ elim (Bool-cases (text_eq j i)) [
        | inl here ↦ rw (not_below, above, here) refl
        | inr other ↦ rw (not_below, above, other) (lookup-insert i k v rest s.1)
      ]
      | inr not_above ↦
          let same = text_lt_total k j not_below not_above in
          elim (Bool-cases (text_eq j i)) [
            | inl here ↦ rw (not_below, not_above, here) refl
            | inr other ↦
                let k_other : text_eq k i ≡ false = rw same other in
                rw (not_below, not_above, other, k_other) (or_none (lookup i rest))
          ]
    ]
  ]

-- ===== src/Process/Variant/Equality.antt =====
-- Where operator== of variants is an equivalence, and where it is not.
use compute_web_app.Prelude.{[], ◌∷◌, ℕ, ◌≡◌, refl, ◌↔◌, Bool, true, false, ◌&&◌, ◌==◌, arith}
use compute_web_app.Prelude.Text.{Text, text_eq, text_eq_refl}
use compute_web_app.Process.Variant.{
  ℤ, pos, negsuc, int_eq, Double, Variant, unset, integer, decimal, string, variants, Variants, end,
  item, size, equal, equal_items,
}

int_eq_refl : (m : ℤ) → int_eq m m ≡ true
int_eq_refl (pos m) = ground arith
int_eq_refl (negsuc m) = ground arith

==_sym : (m n : ℕ) → (m == n) ≡ (n == m)
==_sym m n = ground arith

and-split : (a b : Bool) → (a && b) ≡ true → (a ≡ true) × (b ≡ true)
and-split true b h = (refl, h)
and-split false b h = cc

module _ {D : Type 0} (double : Double D) where
  -- Nothing inside is unset, and no decimal differs from itself, as a NaN does.
  abbrev mutual
    pub IsComparable : Variant D → Type 0
    IsComparable unset = ⊥
    IsComparable (integer n) = Unit {0}
    IsComparable (decimal x) = double.equal x x ≡ true
    IsComparable (string s) = Unit {0}
    IsComparable (variants vs) = AreComparable vs

    pub AreComparable : Variants D → Type 0
    AreComparable end = Unit {0}
    AreComparable (item v vs) = IsComparable v × AreComparable vs

  mutual
    unfolding equal

    comparable→equal : (v : Variant D) → IsComparable v → equal double v v ≡ true
    comparable→equal unset h = absurd h
    comparable→equal (integer n) h = int_eq_refl n
    comparable→equal (decimal x) h = h
    comparable→equal (string s) h = text_eq_refl s
    comparable→equal (variants vs) h = ground (arith, comparable→equal_items vs h)

    comparable→equal_items : (vs : Variants D) → AreComparable vs → equal_items double vs vs ≡ true
    comparable→equal_items end h = refl
    comparable→equal_items (item v vs) h =
        rw (comparable→equal v h.0, comparable→equal_items vs h.1) refl

  mutual
    unfolding equal

    equal→comparable : (v : Variant D) → equal double v v ≡ true → IsComparable v
    equal→comparable unset h = cc
    equal→comparable (integer n) h = tt
    equal→comparable (decimal x) h = h
    equal→comparable (string s) h = tt
    equal→comparable (variants vs) h = equal_items→comparable vs (ground arith)

    equal_items→comparable : (vs : Variants D) → equal_items double vs vs ≡ true → AreComparable vs
    equal_items→comparable end h = tt
    equal_items→comparable (item v vs) h =
        let (here, rest) = and-split (equal double v v) (equal_items double vs vs) h in
        (equal→comparable v here, equal_items→comparable vs rest)

  -- A variant equals itself exactly if no variant inside it is unset, and no decimal inside it
  -- differs from itself.
  pub equal_self : (v : Variant D) → (equal double v v ≡ true) ↔ IsComparable v
  equal_self v = (equal→comparable v, comparable→equal v)

  int_eq_sym : (m n : ℤ) → int_eq m n ≡ int_eq n m
  int_eq_sym (pos m) (pos n) = ground arith
  int_eq_sym (negsuc m) (negsuc n) = ground arith
  int_eq_sym (pos m) (negsuc n) = refl
  int_eq_sym (negsuc m) (pos n) = refl

  text_eq_sym : (s t : Text) → text_eq s t ≡ text_eq t s
  text_eq_sym [] [] = refl
  text_eq_sym [] (y ∷ ys) = refl
  text_eq_sym (x ∷ xs) [] = refl
  text_eq_sym (x ∷ xs) (y ∷ ys) = ground (arith, text_eq_sym xs ys)

  module _ (double_sym : (x y : D) → double.equal x y ≡ double.equal y x) where
    mutual
      unfolding equal

      equal_swap : (v w : Variant D) → equal double v w ≡ equal double w v
      equal_swap unset unset = refl
      equal_swap unset (integer n) = refl
      equal_swap unset (decimal y) = refl
      equal_swap unset (string t) = refl
      equal_swap unset (variants ws) = refl
      equal_swap (integer m) unset = refl
      equal_swap (integer m) (integer n) = int_eq_sym m n
      equal_swap (integer m) (decimal y) = refl
      equal_swap (integer m) (string t) = refl
      equal_swap (integer m) (variants ws) = refl
      equal_swap (decimal x) unset = refl
      equal_swap (decimal x) (integer n) = refl
      equal_swap (decimal x) (decimal y) = double_sym x y
      equal_swap (decimal x) (string t) = refl
      equal_swap (decimal x) (variants ws) = refl
      equal_swap (string s) unset = refl
      equal_swap (string s) (integer n) = refl
      equal_swap (string s) (decimal y) = refl
      equal_swap (string s) (string t) = text_eq_sym s t
      equal_swap (string s) (variants ws) = refl
      equal_swap (variants vs) unset = refl
      equal_swap (variants vs) (integer n) = refl
      equal_swap (variants vs) (decimal y) = refl
      equal_swap (variants vs) (string t) = refl
      equal_swap (variants vs) (variants ws) =
          rw (==_sym (size vs) (size ws), equal_items_sym vs ws) refl

      equal_items_sym : (vs ws : Variants D) → equal_items double vs ws ≡ equal_items double ws vs
      equal_items_sym end end = refl
      equal_items_sym end (item w ws) = refl
      equal_items_sym (item v vs) end = refl
      equal_items_sym (item v vs) (item w ws) = rw (equal_swap v w, equal_items_sym vs ws) refl

    -- Where the comparison of doubles is symmetric, that of variants is.
    pub equal_sym : (v w : Variant D) → equal double v w ≡ equal double w v
    equal_sym v w = equal_swap v w

-- ===== src/Prelude/Sums.antt =====
-- Sums over lists, and lists of which one element is replaced.
use Prim.Native.Nat.{ℕ, zero, suc, ◌+◌, ◌≤◌, ◌<◌}
use mathlib.Core.Path.{◌≡◌, refl, ap}
use mathlib.Core.Logic.{◌≢◌}
use mathlib.Core.List.{List, [], ◌∷◌, map}
use mathlib.Core.Option.{some}
use native.Mathlib.Omega.{arith}
use compute_web_app.Prelude.Lists.{length, get_elem?, set}

module _ {ℓ} {A : Type ℓ} where
  abbrev pub sum_over : (A → ℕ) → List A → ℕ
  sum_over weight [] = 0
  sum_over weight (x ∷ xs) = weight x + sum_over weight xs

  pub sum_over-set :
      (weight : A → ℕ) (xs : List A) (k : ℕ) (x x' : A)
      → get_elem? xs k ≡ some x
      → sum_over weight (set xs k x') + weight x ≡ sum_over weight xs + weight x'
  sum_over-set weight [] k x x' e = cc
  sum_over-set weight (y ∷ xs) zero x x' e =
      let same : y ≡ x = cc in let w : weight y ≡ weight x = ap weight same in omega arith
  sum_over-set weight (y ∷ xs) (suc k) x x' e = omega (arith, sum_over-set weight xs k x x' e)

  pub sum_over-get :
      (weight : A → ℕ) (xs : List A) (k : ℕ) (x : A)
      → get_elem? xs k ≡ some x
      → weight x ≤ sum_over weight xs
  sum_over-get weight [] k x e = cc
  sum_over-get weight (y ∷ xs) zero x e =
      let same : y ≡ x = cc in let w : weight y ≡ weight x = ap weight same in omega arith
  sum_over-get weight (y ∷ xs) (suc k) x e = omega (arith, sum_over-get weight xs k x e)

  pub get_elem?-set :
      (xs : List A) (j k : ℕ) (v : A) → j ≢ k → get_elem? (set xs j v) k ≡ get_elem? xs k
  get_elem?-set [] j k v h = refl
  get_elem?-set (x ∷ xs) zero zero v h = absurd (h refl)
  get_elem?-set (x ∷ xs) zero (suc k) v h = refl
  get_elem?-set (x ∷ xs) (suc j) zero v h = refl
  get_elem?-set (x ∷ xs) (suc j) (suc k) v h = get_elem?-set xs j k v (λ e. h (ap suc e))

  pub get_elem?-set_self :
      (xs : List A) (k : ℕ) (v : A) → k < length xs → get_elem? (set xs k v) k ≡ some v
  get_elem?-set_self [] k v h = absurd (omega arith)
  get_elem?-set_self (x ∷ xs) zero v h = refl
  get_elem?-set_self (x ∷ xs) (suc k) v h = get_elem?-set_self xs k v (omega arith)

  pub length-set : (xs : List A) (j : ℕ) (v : A) → length (set xs j v) ≡ length xs
  length-set [] j v = refl
  length-set (x ∷ xs) zero v = refl
  length-set (x ∷ xs) (suc j) v = ap suc (length-set xs j v)

  pub get_elem?-lt : (xs : List A) (k : ℕ) (x : A) → get_elem? xs k ≡ some x → k < length xs
  get_elem?-lt [] k x h = cc
  get_elem?-lt (y ∷ xs) zero x h = omega arith
  get_elem?-lt (y ∷ xs) (suc k) x h = omega (arith, get_elem?-lt xs k x h)

  -- A write of what stands there.
  pub set_same : (xs : List A) (k : ℕ) (x : A) → get_elem? xs k ≡ some x → set xs k x ≡ xs
  set_same [] k x h = refl
  set_same (y ∷ xs) zero x h = let same : y ≡ x = cc in rw same refl
  set_same (y ∷ xs) (suc k) x h = ap (◌∷◌ y) (set_same xs k x h)

module _ {ℓ} {A B : Type ℓ} (f : A → B) where
  pub map-set : (xs : List A) (k : ℕ) (x : A) → map f (set xs k x) ≡ set (map f xs) k (f x)
  map-set [] k x = refl
  map-set (y ∷ xs) zero x = refl
  map-set (y ∷ xs) (suc k) x = ap (◌∷◌ (f y)) (map-set xs k x)

  pub map-get :
      (xs : List A) (k : ℕ) (x : A) → get_elem? xs k ≡ some x → get_elem? (map f xs) k ≡ some (f x)
  map-get [] k x h = cc
  map-get (y ∷ xs) zero x h = let same : y ≡ x = cc in rw same refl
  map-get (y ∷ xs) (suc k) x h = map-get xs k x h

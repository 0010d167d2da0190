-- ===== src/Benchmark/Main/Generate/Values.antt =====
-- The values that are drawn for a file, and what is read of their bytes.
use native.Mathlib.Nat.{mul-le-mul_left}
use compute_web_app.Prelude.{
  ℕ, zero, suc, ◌+◌, ◌*◌, ◌%◌, ◌≤◌, ◌<◌, ◌≡◌, refl, ap, List, [], ◌∷◌, some, length, get_elem?,
  arith,
}
use compute_web_app.Benchmark.Product.{u16_mod, byte_of, element}
use compute_web_app.Benchmark.Main.Generate.{generate, value_bytes}

pub length-value_bytes : (vs : List ℕ) → length (value_bytes vs) ≡ 2 * length vs
unfolding value_bytes
length-value_bytes [] = refl
length-value_bytes (v ∷ vs) = omega (arith, length-value_bytes vs)

-- The number whose bytes stand from position k on.
abbrev pub number_at : List ℕ → ℕ → ℕ
number_at bytes k = byte_of (get_elem? bytes k) + 256 * byte_of (get_elem? bytes (k + 1))

number_at-value_bytes :
    (vs : List ℕ) (j v : ℕ)
    → get_elem? vs j ≡ some v
    → v < u16_mod
    → number_at (value_bytes vs) (2 * j) ≡ v
unfolding value_bytes
number_at-value_bytes [] j v h k = cc
number_at-value_bytes (w ∷ vs) zero v h k = let same : w ≡ v = cc in omega arith
number_at-value_bytes (w ∷ vs) (suc j) v h k =
    let e : 2 * suc j ≡ suc (suc (2 * j)) = omega arith in
    let e' : suc (suc (2 * j)) + 1 ≡ suc (suc (2 * j + 1)) = omega arith in
    rw (e, e') (number_at-value_bytes vs j v h k)

module _ {E : Type 0} (draw : E → ℕ × E) where
  -- The engine behind n draws, and the value of the draw after them.
  abbrev pub skipped : ℕ → E → E
  skipped zero engine = engine
  skipped (suc n) engine = skipped n (draw engine).1

  abbrev pub drawn : ℕ → E → ℕ
  drawn k engine = (draw (skipped k engine)).0

  pub skipped-add : (m n : ℕ) (engine : E) → skipped n (skipped m engine) ≡ skipped (m + n) engine
  skipped-add zero n engine = let e : 0 + n ≡ n = omega arith in rw e refl
  skipped-add (suc m) n engine =
      let e : suc m + n ≡ suc (m + n) = omega arith in rw e (skipped-add m n (draw engine).1)

  pub generate-engine : (n : ℕ) (engine : E) → (generate draw n engine).1 ≡ skipped n engine
  unfolding generate
  generate-engine zero engine = refl
  generate-engine (suc n) engine = generate-engine n (draw engine).1

  pub length-generate : (n : ℕ) (engine : E) → length (generate draw n engine).0 ≡ n
  unfolding generate
  length-generate zero engine = refl
  length-generate (suc n) engine = ap suc (length-generate n (draw engine).1)

  module _ (small : (engine : E) → (draw engine).0 < u16_mod) where
    get_elem?-generate :
        (n k : ℕ) (engine : E)
        → k < n
        → get_elem? (generate draw n engine).0 k ≡ some (drawn k engine)
    unfolding generate
    get_elem?-generate zero k engine h = absurd (omega arith)
    get_elem?-generate (suc n) zero engine h =
        let fits : (draw engine).0 % u16_mod ≡ (draw engine).0 = omega (arith, small engine) in
        ap some fits
    get_elem?-generate (suc n) (suc k) engine h =
        get_elem?-generate n k (draw engine).1 (omega arith)

    -- The element (row, col) is the value of the draw with the number that the matrix's columns,
    -- one behind the other, give it.
    pub element-generate :
        (height row col : ℕ) (engine : E)
        → row < height
        → col < height
        → element height (value_bytes (generate draw (height * height) engine).0) row col
          ≡ drawn (col * height + row) engine
    unfolding element
    element-generate height row col engine h l =
        let k = col * height + row in
        let le : col + 1 ≤ height = omega arith in
        let inside : k < height * height = omega (arith, mul-le-mul_left height le) in
        number_at-value_bytes (generate draw (height * height) engine).0 k (drawn k engine)
          (get_elem?-generate (height * height) k engine inside) (small (skipped k engine))

-- ===== src/Benchmark/Product/Sum.antt =====
-- The benchmark's loops compute the product of matrices modulo 2^16.
use native.Mathlib.Nat.{mul-le-mul_left}
use compute_web_app.Prelude.{
  ℕ, zero, suc, ◌+◌, ◌*◌, ◌/◌, ◌%◌, ◌^◌, ◌≤◌, ◌<◌, ◌≡◌, refl, ap, ◌∙◌, List, [], ◌++◌, length,
  arith, lt→ltb, le→ltb, drop,
}
use compute_web_app.Outcome.{ok}
use compute_web_app.Benchmark.Product.{
  u16_mod, int_mod, u16_bytes, element, add_product, dot, product_from, Product, Libraries, prepare,
  multiply,
}

-- A product of a number of 16 bits and one of 15 bits is one that an `int` holds, with any number of
-- 16 bits added.
small_product : (m d : ℕ) → m < u16_mod → d < 2 ^ 15 → m * d ≤ 65535 * 32767
small_product m d h k = let le : d ≤ 32767 = omega arith in omega (arith, mul-le-mul_left m le)

add_product-small :
    (old m d : ℕ)
    → old < u16_mod
    → m < u16_mod
    → d < 2 ^ 15
    → add_product old m d ≡ ok ((old + m * d) % u16_mod)
unfolding add_product
add_product-small old m d h k l =
    let p = small_product m d k l in
    rw (lt→ltb (m * d) int_mod (omega arith), lt→ltb (old + m * d) int_mod (omega arith)) refl

module _ (height matrix_height : ℕ) (matrix dataset : List ℕ) where
  -- The reference: the sum of the products along a row and a column, of any size.
  abbrev pub row_sum : ℕ → ℕ → ℕ → ℕ → ℕ
  row_sum row col zero index = 0
  row_sum row col (suc n) index =
      element matrix_height matrix row index * element height dataset index col
      + row_sum row col n (suc index)

  abbrev pub products_from : ℕ → ℕ → List ℕ
  products_from zero k = []
  products_from (suc n) k =
      u16_bytes (row_sum (k % height) (k / height) height 0 % u16_mod) ++ products_from n (suc k)

  module _ (small_matrix : (row col : ℕ) → element matrix_height matrix row col < u16_mod)
      (small_dataset : (row col : ℕ) → element height dataset row col < 2 ^ 15) where
    dot-row_sum :
        (row col n index old : ℕ)
        → old < u16_mod
        → dot height matrix_height matrix dataset row col n index old
          ≡ ok ((old + row_sum row col n index) % u16_mod)
    unfolding dot
    dot-row_sum row col zero index old h =
        let same : old ≡ (old + 0) % u16_mod = omega arith in ap ok same
    dot-row_sum row col (suc n) index old h =
        let m = element matrix_height matrix row index in
        let d = element height dataset index col in
        let wrapped : ((old + m * d) % u16_mod + row_sum row col n (suc index)) % u16_mod
            ≡ (old + (m * d + row_sum row col n (suc index))) % u16_mod =
          omega arith in
        rw (add_product-small old m d h (small_matrix row index) (small_dataset index col)) (
          dot-row_sum row col n (suc index) ((old + m * d) % u16_mod) (omega arith) ∙ ap ok wrapped)

    dot_whole :
        (row col : ℕ)
        → dot height matrix_height matrix dataset row col height 0 0
          ≡ ok (row_sum row col height 0 % u16_mod)
    dot_whole row col =
        let from_zero : (0 + row_sum row col height 0) % u16_mod
            ≡ row_sum row col height 0 % u16_mod =
          omega arith in
        dot-row_sum row col height 0 0 (omega arith) ∙ ap ok from_zero

    -- Where the elements of the dataset are below 2^15, the loops of algorithm 0 meet no overflow of an `int`, and
    -- write the product of the two matrices, each element cut to 16 bits.
    pub product_from-row_sum :
        (n k : ℕ) → product_from height matrix_height matrix dataset n k ≡ ok (products_from n k)
    unfolding product_from
    product_from-row_sum zero k = refl
    product_from-row_sum (suc n) k =
        rw (dot_whole (k % height) (k / height), product_from-row_sum n (suc k)) refl

length-products_from :
    (height matrix_height : ℕ) (matrix dataset : List ℕ) (n k : ℕ)
    → length (products_from height matrix_height matrix dataset n k) ≡ 2 * n
unfolding u16_bytes
length-products_from height matrix_height matrix dataset zero k = refl
length-products_from height matrix_height matrix dataset (suc n) k =
    omega (arith, length-products_from height matrix_height matrix dataset n (suc k))

-- Algorithm 0 on a buffer of a square matrix. Where the random matrix, made of the first buffer, is
-- not lower, the results' buffer not smaller, its elements are of 16 bits and those of the dataset below 2^15: no `int` overflows, the
-- result is the product of the two matrices, each element cut to 16 bits, and behind it what stood in
-- the buffer; the next round has the same random matrix.
pub multiply-products :
    (libraries : Libraries) (st ready : Product) (buffer : List ℕ) (height : ℕ)
    → libraries.sqrt (length buffer / 2) ≡ height
    → prepare libraries st height (length buffer) ≡ ready
    → height ≤ ready.matrix_height
    → 2 * (height * height) ≤ length ready.buffer_out
    → ((row col : ℕ) → element ready.matrix_height ready.matrix row col < u16_mod)
    → ((row col : ℕ) → element height buffer row col < 2 ^ 15)
    → let result =
        products_from height ready.matrix_height ready.matrix buffer (height * height) 0
        ++ drop (2 * (height * height)) ready.buffer_out in
      multiply libraries 0 st buffer ≡ ok (result, record ready { buffer_out = result })
unfolding multiply
multiply-products libraries st ready buffer height root prepared high room small_matrix
      small_dataset =
    rw
      (
        root,
        prepared,
        le→ltb (length ready.buffer_out) (2 * (height * height)) room,
        le→ltb ready.matrix_height height high,
        product_from-row_sum height ready.matrix_height ready.matrix buffer small_matrix
            small_dataset (height * height) 0,
        length-products_from height ready.matrix_height ready.matrix buffer (height * height) 0,
      )
      refl

-- ===== src/Benchmark/Product.antt =====
-- process/benchmark/benchmark_worker.cpp: the product of matrices of 16-bit numbers. A matrix is the
-- bytes of its columns, one behind the other, each number with its low byte first.
pub mod Sum
use compute_web_app.Prelude.{
  ℕ, zero, suc, ◌+◌, ◌-◌, ◌*◌, ◌/◌, ◌%◌, ◌^◌, List, [], ◌∷◌, ◌++◌, Option, none, some, length,
  get_elem?, take, drop, ltb, ◌==◌, if◌then◌else◌,
}
use compute_web_app.Outcome.{Outcome, ok, raise, exits, fault, ◌>>=◌}

abbrev pub u16_mod : ℕ
u16_mod = 2 ^ 16

abbrev pub int_mod : ℕ
int_mod = 2 ^ 31

unfoldable pub u16_bytes : ℕ → List ℕ
u16_bytes n = n % 256 ∷ n / 256 % 256 ∷ []

abbrev pub byte_of : Option ℕ → ℕ
byte_of none = 0
byte_of (some b) = b

-- The matrix (row, col) of a height.
unfoldable pub element : ℕ → List ℕ → ℕ → ℕ → ℕ
element height bytes row col =
    let k = 2 * (col * height + row) in
    byte_of (get_elem? bytes k) + 256 * byte_of (get_elem? bytes (k + 1))

-- `result(row, col) += matrix(row, index) * dataset_matrix(index, col)`: the product and the sum are
-- computed as `int`, where an overflow is undefined, and the sum is cut to 16 bits.
unfoldable pub add_product : ℕ → ℕ → ℕ → Outcome ℕ
add_product old m d =
    if ltb (m * d) int_mod
    then (if ltb (old + m * d) int_mod then ok ((old + m * d) % u16_mod) else fault)
    else fault

module _ (height : ℕ) (matrix_height : ℕ) (matrix : List ℕ) (dataset : List ℕ) where
  -- The innermost loop, `count` more indices from `index` on.
  unfoldable pub dot : ℕ → ℕ → ℕ → ℕ → ℕ → Outcome ℕ
  unfolding add_product
  dot row col zero index old = ok old
  dot row col (suc count) index old = do
    sum ←
        add_product old (element matrix_height matrix row index) (element height dataset index col)
    dot row col count (suc index) sum

  -- The elements from number k on, by columns. No element depends on another, so that the order of
  -- the two outer loops does not matter.
  unfoldable pub product_from : ℕ → ℕ → Outcome (List ℕ)
  unfolding dot u16_bytes
  product_from zero k = ok []
  product_from (suc count) k = do
    sum ← dot (k % height) (k / height) height 0 0
    rest ← product_from count (suc k)
    ok (u16_bytes sum ++ rest)

-- The variables that live from one round to the next. An empty matrix has height 0.
pub record Product : Type 0 where
  pub matrix_height : ℕ
  pub matrix : List ℕ
  pub buffer_out : List ℕ

abbrev pub new_product : Product
new_product = record { matrix_height = 0; matrix = []; buffer_out = [] }

abbrev zeros : ℕ → List ℕ
zeros zero = []
zeros (suc n) = 0 ∷ zeros n

-- buffer_out.resize(n)
abbrev pub resize : List ℕ → ℕ → List ℕ
resize bytes n = take n bytes ++ zeros (n - length bytes)

-- The libraries: the integer part of a square root, the random matrix of a height, and the product
-- that the matrix library computes.
pub record Libraries : Type 0 where
  pub sqrt : ℕ → ℕ
  pub random : ℕ → List ℕ
  pub library_product : ℕ → ℕ → List ℕ → List ℕ → Outcome (List ℕ)

module _ (libraries : Libraries) where
  -- if(matrix.size() == 0)
  unfoldable pub prepare : Product → ℕ → ℕ → Product
  prepare st height size =
      if st.matrix_height == 0
      then (record {
        matrix_height = height;
        matrix = libraries.random height;
        buffer_out = resize st.buffer_out size;
      })
      else st

module _ (libraries : Libraries) (algorithm : ℕ) where
  -- The switch. A row of the matrix or a byte of the buffer that is not there is undefined behaviour.
  apply_algorithm : Product → ℕ → List ℕ → Outcome (List ℕ)
  unfolding product_from
  apply_algorithm st height buffer =
      if ltb (length st.buffer_out) (2 * (height * height))
      then fault
      else if algorithm == 0
      then (if ltb st.matrix_height height
          then fault
          else product_from height st.matrix_height st.matrix buffer (height * height) 0)
      else if algorithm == 1
      then libraries.library_product height st.matrix_height st.matrix buffer
      else exits

  -- What the loop of the worker does with the buffer of a dataset: the bytes of the results are
  -- written over the first of `buffer_out`.
  unfoldable pub multiply : Product → List ℕ → Outcome (List ℕ × Product)
  unfolding prepare apply_algorithm
  multiply st buffer =
      let height = libraries.sqrt (length buffer / 2) in
      let ready = prepare libraries st height (length buffer) in
      do
        written ← apply_algorithm ready height buffer
        (let buffer_out = written ++ drop (length written) ready.buffer_out in
            ok (buffer_out, record ready { buffer_out = buffer_out }))

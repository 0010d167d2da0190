-- ===== src/Tests/Products.antt =====
-- The theorem on the benchmark's product at a concrete input: matrices of one number.
use compute_web_app.Prelude.{ℕ, zero, suc, ◌+◌, ◌*◌, ◌^◌, ◌<◌, ◌≡◌, refl, [], ◌∷◌, get_elem?, arith}
use compute_web_app.Outcome.{exits, ok}
use compute_web_app.Benchmark.Product.{
  byte_of, u16_bytes, element, Libraries, Product, new_product, prepare, multiply,
}
use compute_web_app.Benchmark.Product.Sum.{multiply-products}

abbrev libraries : Libraries
libraries = record { sqrt = λ n. n; random = λ h. 200 ∷ 3 ∷ []; library_product = λ h g m d. exits }

-- The bytes a and b, wherever they are read.
byte-lt : (a b k : ℕ) → a < 256 → b < 128 → byte_of (get_elem? (a ∷ b ∷ []) k) < 256
byte-lt a b zero h l = h
byte-lt a b (suc zero) h l = omega arith
byte-lt a b (suc (suc k)) h l = omega arith

high_byte-lt : (a b k : ℕ) → b < 128 → byte_of (get_elem? (a ∷ b ∷ []) (k + 1)) < 128
high_byte-lt a b k l = let e : k + 1 ≡ suc k = omega arith in rw e (after a b k l)
  where
    after : (a b k : ℕ) → b < 128 → byte_of (get_elem? (a ∷ b ∷ []) (suc k)) < 128
    after a b zero l = l
    after a b (suc k) l = omega arith

element-lt :
    (height a b row col : ℕ) → a < 256 → b < 128 → element height (a ∷ b ∷ []) row col < 2 ^ 15
unfolding element
element-lt height a b row col h l =
    let k = 2 * (col * height + row) in omega (arith, byte-lt a b k h l, high_byte-lt a b k l)

abbrev ready : Product
ready = record { matrix_height = 1; matrix = 200 ∷ 3 ∷ []; buffer_out = 0 ∷ 0 ∷ [] }

multiply-products_example :
    multiply libraries 0 new_product (100 ∷ 1 ∷ [])
    ≡ ok (32 ∷ 66 ∷ [], record ready { buffer_out = 32 ∷ 66 ∷ [] })
unfolding prepare element u16_bytes
multiply-products_example =
    multiply-products libraries new_product ready (100 ∷ 1 ∷ []) 1 refl refl (omega arith)
      (omega arith) (λ row col. wider (element-lt 1 200 3 row col (omega arith) (omega arith)))
      (λ row col. element-lt 1 100 1 row col (omega arith) (omega arith))
  where
    wider : {n : ℕ} → n < 2 ^ 15 → n < 2 ^ 16
    wider h = omega arith

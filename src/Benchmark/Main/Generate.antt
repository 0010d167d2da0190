-- ===== src/Benchmark/Main/Generate.antt =====
-- process/benchmark/benchmark_main.cpp: the files of input data that it writes with `--generate`.
-- The random numbers are the standard library's: a draw is a parameter.
pub mod Values
pub mod Found
use compute_web_app.Prelude.{ℕ, zero, suc, ◌*◌, ◌%◌, List, [], ◌∷◌, ◌++◌}
use compute_web_app.Prelude.Text.{Text, codes, to_text}
use compute_web_app.Dataset.{Files, write_file}
use compute_web_app.Benchmark.Product.{u16_mod, u16_bytes}

module _ {E : Type 0} (draw : E → ℕ × E) where
  -- std::generate over `n` elements of 16 bits, from a state of the random engine.
  unfoldable pub generate : ℕ → E → List ℕ × E
  generate zero engine = ([], engine)
  generate (suc n) engine =
      let (value, engine') = draw engine in
      let (values, engine'') = generate n engine' in (value % u16_mod ∷ values, engine'')

-- The bytes of the vector of values.
unfoldable pub value_bytes : List ℕ → List ℕ
unfolding u16_bytes
value_bytes [] = []
value_bytes (v ∷ vs) = u16_bytes v ++ value_bytes vs

unfoldable pub input_file : ℕ → Text
input_file i = codes "input" ++ (codes "/dataset_" ++ (to_text i ++ codes ".raw"))

module _ {E : Type 0} (draw : E → ℕ × E) (height : ℕ) where
  -- The loop over the files, for n of them from number i on.
  unfoldable pub generate_files : ℕ → ℕ → E → Files → Files
  unfolding generate input_file
  generate_files zero i engine fs = fs
  generate_files (suc n) i engine fs =
      let (values, engine') = generate draw (height * height) engine in
      generate_files n (suc i) engine' (write_file fs (input_file i) (value_bytes values))

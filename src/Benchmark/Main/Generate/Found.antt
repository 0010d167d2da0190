-- ===== src/Benchmark/Main/Generate/Found.antt =====
-- The benchmark's run finds the files that its run with `--generate` has written.
use compute_web_app.Prelude.{
  ℕ, zero, suc, ◌+◌, ◌*◌, ◌^◌, ◌≤◌, ◌<◌, ◌≡◌, ◌≢◌, refl, sym, ap, ◌∙◌, List, [], ◌∷◌, ◌++◌, some,
  true, false, length, get_elem?, arith, append-nil, append_assoc,
}
use compute_web_app.Prelude.Words.{u32_mod}
use compute_web_app.Prelude.Text.{Text, codes, to_text, text_eq}
use compute_web_app.Outcome.{ok}
use compute_web_app.Dataset.{Files, write_file, Dataset, Data, points, retrieve_buffer, new_data}
use compute_web_app.Dataset.Buffers.{write_file-other, write_file-same}
use compute_web_app.Benchmark.Product.{u16_mod, element}
use compute_web_app.Benchmark.Shared.Names.{dataset_name, numbered_ne}
use compute_web_app.Benchmark.Main.{fill_input, input_data}
use compute_web_app.Benchmark.Main.Generate.{generate, value_bytes, input_file, generate_files}
use compute_web_app.Benchmark.Main.Generate.Values.{
  length-value_bytes, skipped, drawn, skipped-add, generate-engine, length-generate,
  element-generate,
}

abbrev pub input_dataset : Text → ℕ → Dataset
input_dataset data_id i = record { id = dataset_name i; owner = points data_id; buffer = [] }

abbrev input_datasets : Text → ℕ → ℕ → List Dataset
input_datasets data_id zero i = []
input_datasets data_id (suc n) i = input_dataset data_id i ∷ input_datasets data_id n (suc i)

fill_input-datasets :
    (n i : ℕ) (target : Data)
    → (fill_input n i target).datasets ≡ target.datasets ++ input_datasets target.id n i
unfolding fill_input
fill_input-datasets zero i target = sym (append-nil target.datasets)
fill_input-datasets (suc n) i target =
    let ds = input_dataset target.id i in
    fill_input-datasets n (suc i) (record target { datasets = target.datasets ++ ds ∷ [] })
    ∙ append_assoc target.datasets (ds ∷ []) (input_datasets target.id n (suc i))

get_elem?-input_datasets :
    (data_id : Text) (n i m : ℕ)
    → m < n
    → get_elem? (input_datasets data_id n i) m ≡ some (input_dataset data_id (i + m))
get_elem?-input_datasets data_id zero i m h = absurd (omega arith)
get_elem?-input_datasets data_id (suc n) i zero h = let e : i + 0 ≡ i = omega arith in rw e refl
get_elem?-input_datasets data_id (suc n) i (suc m) h =
    let e : i + suc m ≡ suc i + m = omega arith in
    rw e (get_elem?-input_datasets data_id n (suc i) m (omega arith))

input_file_ne :
    (i j : ℕ) → i < u32_mod → j < u32_mod → i ≢ j → text_eq (input_file i) (input_file j) ≡ false
unfolding input_file
input_file_ne = numbered_ne (codes "input/dataset_") (codes ".raw")

retrieve-input_file :
    (fs : Files) (i : ℕ) (bytes : List ℕ)
    → fs.contents (input_file i) ≡ some bytes
    → retrieve_buffer fs (input_dataset (codes "input") i) ≡ ok bytes
unfolding retrieve_buffer input_file
retrieve-input_file fs i bytes h = ground arith

module _ {E : Type 0} (draw : E → ℕ × E) (height : ℕ) where
  -- Files of lower numbers are left as they are.
  generate_files-lower :
      (n i k : ℕ) (engine : E) (fs : Files)
      → k < i
      → i + n ≤ u32_mod
      → (generate_files draw height n i engine fs).contents (input_file k)
        ≡ fs.contents (input_file k)
  unfolding generate_files
  generate_files-lower zero i k engine fs h fit = refl
  generate_files-lower (suc n) i k engine fs h fit =
      let (values, engine') = generate draw (height * height) engine in
      let bytes = value_bytes values in
      generate_files-lower n (suc i) k engine' (write_file fs (input_file i) bytes) (omega arith)
        (omega arith)
      ∙ write_file-other fs (input_file i) (input_file k) bytes
          (input_file_ne k i (omega arith) (omega arith) (omega arith))

  generate_files-written :
      (n i m : ℕ) (engine : E) (fs : Files)
      → m < n
      → i + n ≤ u32_mod
      → fs.writable (input_file (i + m)) ≡ true
      → (generate_files draw height n i engine fs).contents (input_file (i + m))
        ≡ some (
            value_bytes
              (generate draw (height * height) (skipped draw (m * (height * height)) engine)).0)
  unfolding generate_files write_file
  generate_files-written zero i m engine fs h fit w = absurd (omega arith)
  generate_files-written (suc n) i zero engine fs h fit w =
      let e : i + 0 ≡ i = omega arith in
      let none_skipped : 0 * (height * height) ≡ 0 = omega arith in
      let (values, engine') = generate draw (height * height) engine in
      let bytes = value_bytes values in
      rw (e, none_skipped)
        (generate_files-lower n (suc i) i engine' (write_file fs (input_file i) bytes) (omega arith)
            (omega arith)
          ∙ write_file-same fs (input_file i) bytes (rw e at w))
  generate_files-written (suc n) i (suc m) engine fs h fit w =
      let e : i + suc m ≡ suc i + m = omega arith in
      let size = height * height in
      let (values, engine') = generate draw size engine in
      let sizes : size + m * size ≡ suc m * size = omega arith in
      let skip : skipped draw (m * size) engine' ≡ skipped draw (suc m * size) engine =
        ap (skipped draw (m * size)) (generate-engine draw size engine)
        ∙ skipped-add draw size (m * size) engine
        ∙ ap (λ k. skipped draw k engine) sizes in
      rw (e, sym skip)
        (generate_files-written n (suc i) m engine'
          (write_file fs (input_file i) (value_bytes values)) (omega arith) (omega arith)
          (rw e at w))

-- The files that the benchmark's main program writes with `--generate` are those of its input data:
-- with at most 2^31 datasets, on paths that can be written, and draws below 2^16. In a run with as
-- many datasets, the dataset with the number i has the id `dataset_i`, and from its file it retrieves
-- the bytes of a square matrix of the height: what the worker reads as the element (row, col) is
-- the value that was drawn for it, the columns and the matrices drawn one after the other.
pub retrieve-generate_files :
    {E : Type 0} (draw : E → ℕ × E) (height n i row col : ℕ) (engine : E) (fs : Files)
    → ((state : E) → (draw state).0 < u16_mod)
    → n ≤ 2 ^ 31
    → ((j : ℕ) → j < n → fs.writable (input_file j) ≡ true)
    → i < n
    → row < height
    → col < height
    → let after = generate_files draw height n 0 engine fs in
      (ds : Dataset) × (bytes : List ℕ) × (get_elem? (input_data n).datasets i ≡ some ds)
      × (ds.id ≡ codes "dataset_" ++ to_text i)
      × (retrieve_buffer after ds ≡ ok bytes)
      × (length bytes ≡ 2 * (height * height))
      × (element height bytes row col ≡ drawn draw ((i * height + col) * height + row) engine)
unfolding input_data
retrieve-generate_files draw height n i row col engine fs small fit writable h k l =
    let size = height * height in
    let (values, _) = generate draw size (skipped draw (i * size) engine) in
    let e : 0 + i ≡ i = omega arith in
    let written =
      generate_files-written draw height n 0 i engine fs h (omega arith) (rw e (writable i h)) in
    let place : i * size + (col * height + row) ≡ (i * height + col) * height + row = omega arith in
    (
      input_dataset (codes "input") i,
      value_bytes values,
      ap (λ dss. get_elem? dss i) (fill_input-datasets n 0 (new_data (codes "input")))
          ∙ get_elem?-input_datasets (codes "input") n 0 i h
          ∙ ap (λ j. some (input_dataset (codes "input") j)) e,
      refl,
      retrieve-input_file (generate_files draw height n 0 engine fs) i (value_bytes values)
          (rw e at written),
      length-value_bytes values
          ∙ ap (λ k. 2 * k) (length-generate draw size (skipped draw (i * size) engine)),
      element-generate draw small height row col (skipped draw (i * size) engine) k l
          ∙ ap (λ state. (draw state).0) (skipped-add draw (i * size) (col * height + row) engine)
          ∙ ap (λ j. drawn draw j engine) place,
    )

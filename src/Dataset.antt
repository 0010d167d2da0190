-- ===== src/Dataset.antt =====
-- data/dataset.cpp and data/data.cpp: a dataset, the data that it is part of, and the files that
-- hold the buffers. Streams are the standard library's: an input stream on a path with no file
-- reports the position -1, and an output stream on a path that cannot be opened writes nothing.
pub mod Buffers
use compute_web_app.Prelude.{
  ℕ, List, [], ◌∷◌, ◌++◌, Option, none, some, Bool, length, is_empty, if◌then◌else◌,
}
use compute_web_app.Prelude.Words.{size_max}
use compute_web_app.Prelude.Text.{Text, codes, text_eq}
use compute_web_app.Outcome.{Outcome, ok, raise, fault, orphan_dataset, length_error, ◌>>=◌}

pub record Files : Type 0 where
  pub contents : Text → Option (List ℕ)
  pub writable : Text → Bool

-- Writing a stream that was opened anew on `name`, and closing it.
unfoldable pub write_file : Files → Text → List ℕ → Files
write_file fs name bytes = record fs {
  contents = λ n.
      if fs.writable name
      then (if text_eq n name then some bytes else fs.contents n)
      else fs.contents n;
}

unfoldable pub remove_file : Files → Text → Files
remove_file fs name = record fs { contents = λ n. if text_eq n name then none else fs.contents n }

-- The pointer `const Data* data`. The constructor leaves it indeterminate. Of the pointee only the
-- id is read, which never changes.
pub data DataPointer : Type 0 where
  indeterminate null : DataPointer
  points : Text → DataPointer

pub record Dataset : Type 0 where
  pub id : Text
  pub owner : DataPointer
  pub buffer : List ℕ

abbrev pub new_dataset : Dataset
new_dataset = record { id = []; owner = indeterminate; buffer = [] }

unfoldable pub set_id : Dataset → Text → Dataset
set_id ds id = record ds { id = id }

unfoldable pub set_data : Dataset → DataPointer → Dataset
set_data ds owner = record ds { owner = owner }

-- GetFilename reads through the pointer with no test of it.
filename_in : DataPointer → Text → Outcome Text
filename_in indeterminate id = fault
filename_in null id = fault
filename_in (points data_id) id = ok (data_id ++ codes "/" ++ id ++ codes ".raw")

unfoldable pub get_filename : Dataset → Outcome Text
unfolding filename_in
get_filename ds = filename_in ds.owner ds.id

-- The test `!data_->data` before a file is used. An indeterminate pointer is not to be read.
unfoldable pub check_owner : Dataset → Outcome Text
unfolding get_filename
check_owner ds = elim ds.owner [
  | indeterminate ↦ fault
  | null ↦ raise orphan_dataset
  | points data_id ↦ filename_in ds.owner ds.id
]

-- `seekg` to the end and `tellg`, as a `size_t`.
unfoldable pub file_length : Files → Text → ℕ
file_length fs name = elim (fs.contents name) [ none ↦ size_max | some bytes ↦ length bytes ]

-- `resize` to the length found, and `read`: no string has `size_t(-1)` characters.
unfoldable pub read_file : Files → Text → Outcome (List ℕ)
read_file fs name = elim (fs.contents name) [ none ↦ raise length_error | some bytes ↦ ok bytes ]

unfoldable pub get_size : Files → Dataset → Outcome ℕ
unfolding check_owner file_length
get_size fs ds =
    if is_empty ds.buffer
    then (do name ← check_owner ds; ok (file_length fs name))
    else ok (length ds.buffer)

unfoldable pub retrieve_buffer_from_file : Files → Dataset → Text → Outcome Dataset
unfolding read_file
retrieve_buffer_from_file fs ds name = do
  bytes ← read_file fs name
  ok (record ds { buffer = bytes })

unfoldable pub retrieve_buffer : Files → Dataset → Outcome (List ℕ)
unfolding check_owner read_file
retrieve_buffer fs ds =
    if is_empty ds.buffer then (do name ← check_owner ds; read_file fs name) else ok ds.buffer

unfoldable pub retain_buffer : Dataset → List ℕ → Dataset
retain_buffer ds buffer = record ds { buffer = buffer }

unfoldable pub release_buffer : Dataset → Dataset
release_buffer ds = record ds { buffer = [] }

unfoldable pub persist : Files → Dataset → Outcome Files
unfolding get_filename write_file
persist fs ds = do name ← get_filename ds; ok (write_file fs name ds.buffer)

pub record Data : Type 0 where
  pub id : Text
  pub datasets : List Dataset

abbrev pub new_data : Text → Data
new_data id = record { id = id; datasets = [] }

-- datasets.push_back(dataset): the vector holds the pointer, so it shows what later becomes of it.
unfoldable pub push_back : Data → Dataset → Data
push_back target ds = record target { datasets = target.datasets ++ ds ∷ [] }

unfoldable pub add_dataset : Data → Dataset → Data
unfolding set_data push_back
add_dataset target ds = push_back target (set_data ds (points target.id))

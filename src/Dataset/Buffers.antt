-- ===== src/Dataset/Buffers.antt =====
-- Where the bytes of a dataset are found: in memory first, then in its file.
use compute_web_app.Prelude.{ℕ, ◌≡◌, ◌≢◌, refl, List, some, true, false, length, arith}
use compute_web_app.Prelude.Words.{size_max}
use compute_web_app.Prelude.Text.{Text, text_eq, text_eq_refl, text_eq→eq}
use compute_web_app.Outcome.{Outcome, ok, raise, exits, fault, length_error}
use compute_web_app.Dataset.{
  Files, Dataset, get_filename, get_size, retrieve_buffer, release_buffer, persist, write_file,
}

pub write_file-other :
    (fs : Files) (name other : Text) (bytes : List ℕ)
    → text_eq other name ≡ false
    → (write_file fs name bytes).contents other ≡ fs.contents other
unfolding write_file
write_file-other fs name other bytes h = ground arith

pub write_file-same :
    (fs : Files) (name : Text) (bytes : List ℕ)
    → fs.writable name ≡ true
    → (write_file fs name bytes).contents name ≡ some bytes
unfolding write_file
write_file-same fs name bytes h = rw (h, text_eq_refl name) refl

-- For a dataset with an owner, persisting it to a writable path and releasing its memory loses no
-- byte: `RetrieveBuffer` and `GetSize` then give the buffer and its length, from the file.
pub retrieve-persist :
    (fs : Files) (ds : Dataset) (name : Text)
    → get_filename ds ≡ ok name
    → fs.writable name ≡ true
    → (after : Files) × (persist fs ds ≡ ok after)
      × (retrieve_buffer after (release_buffer ds) ≡ ok ds.buffer)
      × (get_size after (release_buffer ds) ≡ ok (length ds.buffer))
unfolding persist retrieve_buffer get_size release_buffer
retrieve-persist fs ds name h w = (
  write_file fs name ds.buffer,
  ground arith,
  ground (arith, text_eq_refl name),
  ground (arith, text_eq_refl name),
)

-- The size that belongs to each outcome of a retrieval.
abbrev pub size_of : Outcome (List ℕ) → Outcome ℕ
size_of (ok b) = ok (length b)
size_of (raise length_error) = ok size_max
size_of (raise e) = raise e
size_of exits = exits
size_of fault = fault

-- `GetSize` agrees with `RetrieveBuffer`: where a buffer is retrieved the size is its length; where
-- the file is missing, so that the retrieval throws a length error, the size is `size_t(-1)`; and
-- otherwise both fail alike.
pub get_size-retrieve_buffer :
    (fs : Files) (ds : Dataset) → get_size fs ds ≡ size_of (retrieve_buffer fs ds)
unfolding retrieve_buffer get_size
get_size-retrieve_buffer fs ds = ground arith

-- Persisting one dataset leaves what is retrieved for every other file name as it was.
pub retrieve-persist_other :
    (fs after : Files) (ds other : Dataset) (n m : Text)
    → persist fs ds ≡ ok after
    → get_filename ds ≡ ok n
    → get_filename other ≡ ok m
    → m ≢ n
    → retrieve_buffer after other ≡ retrieve_buffer fs other
unfolding persist retrieve_buffer get_filename
retrieve-persist_other fs after ds other n m h g k ne = ground (arith, text_eq→eq m n)

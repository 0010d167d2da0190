-- ===== src/Tests/Datasets.antt =====
-- The theorems on datasets at concrete inputs.
use compute_web_app.Prelude.{◌≡◌, refl, [], ◌∷◌}
use compute_web_app.Prelude.Text.{codes}
use compute_web_app.Outcome.{ok}
use compute_web_app.Dataset.{
  Files, get_filename, get_size, retrieve_buffer, release_buffer, persist, write_file,
}
use compute_web_app.Dataset.Buffers.{retrieve-persist}
use compute_web_app.Tests.Fixtures.{empty_disk, first_dataset}

retrieve-persist_example :
    (after : Files) × (persist empty_disk first_dataset ≡ ok after)
    × (retrieve_buffer after (release_buffer first_dataset) ≡ ok (1 ∷ 2 ∷ 3 ∷ []))
    × (get_size after (release_buffer first_dataset) ≡ ok 3)
unfolding get_filename
retrieve-persist_example = retrieve-persist empty_disk first_dataset (codes "in/a.raw") refl refl

abbrev disk_after : Files
disk_after = write_file empty_disk (codes "in/a.raw") (1 ∷ 2 ∷ 3 ∷ [])

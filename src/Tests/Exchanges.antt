-- ===== src/Tests/Exchanges.antt =====
-- The theorems on the exchange file at concrete inputs.
use compute_web_app.Prelude.{◌≡◌, refl, inr, [], ◌∷◌, ◌++◌, some, true, false}
use compute_web_app.Prelude.Words.{u32_max}
use compute_web_app.Prelude.Text.{codes}
use compute_web_app.Outcome.{ok}
use compute_web_app.Dataset.{Files}
use compute_web_app.Exchange.{
  Entry, ExchangeFile, get_first_dataset, pop_first_dataset, read_json, client_id_of,
}
use compute_web_app.Exchange.Queue.{Shows, first-Shows}
use compute_web_app.Prelude.{ℕ, List}
use compute_web_app.Exchange.Readers.{ServerFile}
use compute_web_app.Tests.Fixtures.{empty_disk}
use compute_web_app.Tests.Documents.{
  Value, null, number, text, array, object, end, value, no_field, field, documents,
  documents-IsJson,
}

abbrev empty_file : ExchangeFile Value
empty_file = record {
  document = some (object (field (codes "datasets") null no_field));
  locked = false;
  writable = true;
  lock_in_time = true;
}

abbrev entry : Entry
entry = record { id = 4; filename = codes "in/a.raw"; client_id = u32_max }

abbrev end_entry : Entry
end_entry = record { id = u32_max; filename = []; client_id = 2 }

abbrev entry_value : Value
entry_value =
    object
      (field (codes "filename") (text (codes "in/a.raw")) (field (codes "id") (number 4) no_field))

abbrev end_value : Value
end_value = object (
    field (codes "client_id") (number 2)
      (field (codes "filename") (text []) (field (codes "id") (number u32_max) no_field)))

abbrev file_with : Value → ExchangeFile Value
file_with v = record {
  document = some (object (field (codes "datasets") (array (value v end)) no_field));
  locked = false;
  writable = true;
  lock_in_time = true;
}

file_with-Shows : Shows documents documents-IsJson (file_with entry_value) (entry ∷ [])
unfolding read_json client_id_of
file_with-Shows = record {
  writable = refl;
  lock_in_time = refl;
  object = tt;
  value = array (value entry_value end);
  items = entry_value ∷ [];
  found = refl;
  holds = inr refl;
  entries = (
    record {
      id = (number 4, refl, refl);
      filename = (text (codes "in/a.raw"), refl, refl);
      client_id = refl;
    },
    tt,
  );
}

-- An aggregator has locked the file.
abbrev end_file : ExchangeFile Value
end_file = record (file_with end_value) { locked = true }

file_with-Shows_end : Shows documents documents-IsJson end_file (end_entry ∷ [])
unfolding read_json client_id_of
file_with-Shows_end = record {
  writable = refl;
  lock_in_time = refl;
  object = tt;
  value = array (value end_value end);
  items = end_value ∷ [];
  found = refl;
  holds = inr refl;
  entries = (
    record {
      id = (number u32_max, refl, refl);
      filename = (text [], refl, refl);
      client_id = refl;
    },
    tt,
  );
}

first-Shows_example :
    (get_first_dataset documents end_file ≡ ok end_entry)
    × ((st' : ExchangeFile Value) × (pop_first_dataset documents end_file ≡ ok st')
        × Shows documents documents-IsJson st' [])
first-Shows_example =
    first-Shows documents documents-IsJson end_file end_entry [] refl file_with-Shows_end

abbrev disk : Files
disk = record empty_disk { contents = λ _. some (7 ∷ 8 ∷ []) }

abbrev two_reading : ServerFile Value
two_reading = record {
  exchange = empty_file;
  reading = entry ∷ record entry { id = 5; filename = codes "in/b.raw" } ∷ [];
}

abbrev appended : ℕ → List ℕ → List ℕ
appended k d = d ++ k ∷ []

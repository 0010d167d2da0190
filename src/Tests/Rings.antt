-- ===== src/Tests/Rings.antt =====
-- The theorems on workers that share two exchange files at concrete inputs.
use compute_web_app.Prelude.{
  ℕ, ◌+◌, ◌≡◌, refl, List, [], ◌∷◌, none, some, true, false, range_from, arith, ◌==◌, if◌then◌else◌,
}
use compute_web_app.Prelude.Words.{u32_max}
use compute_web_app.Prelude.Text.{Text, codes, text_eq}
use compute_web_app.Outcome.{Outcome, ok}
use compute_web_app.Dataset.{Files}
use compute_web_app.Exchange.{Entry, ExchangeFile}
use compute_web_app.Exchange.Transfer.{bind}
use compute_web_app.Exchange.Clients.{Serves}
use compute_web_app.Exchange.Clients.Session.{connect_all, bind-connect_all}
use compute_web_app.Supply.{DataSupplyState}
use compute_web_app.Supply.Supplier
use compute_web_app.Exchange.Readers.{ServerFile}
use compute_web_app.Tests.Fixtures.{two_datasets}
use compute_web_app.Tests.Documents.{
  Value, null, number, text, array, object, end, value, no_field, field, documents,
  documents-IsJson,
}

-- Two buffers on the disk.
abbrev disk : Files
disk = record {
  contents = λ name.
      if text_eq name (codes "in/a.raw")
      then some (5 ∷ [])
      else (if text_eq name (codes "in/b.raw") then some (7 ∷ []) else none);
  writable = λ name. true;
}

abbrev first_entry : Entry
first_entry = record { id = 0; filename = codes "in/a.raw"; client_id = u32_max }

abbrev second_entry : Entry
second_entry = record { id = 1; filename = codes "in/b.raw"; client_id = u32_max }

abbrev end_of : ℕ → Entry
end_of client_id = record { id = u32_max; filename = []; client_id = client_id }

abbrev data_value : ℕ → Text → Value
data_value i name =
    object (field (codes "filename") (text name) (field (codes "id") (number i) no_field))

abbrev end_value : ℕ → Value
end_value client_id = object (
    field (codes "client_id") (number client_id)
      (field (codes "filename") (text []) (field (codes "id") (number u32_max) no_field)))

-- The two datasets and the end signal of a supplier server.
abbrev supplied : ExchangeFile Value
supplied = record {
  document = some (
      object (
        field (codes "datasets")
          (array (
            value (data_value 0 (codes "in/a.raw"))
              (value (data_value 1 (codes "in/b.raw")) (value (end_value 1) end))))
          no_field));
  locked = false;
  writable = true;
  lock_in_time = true;
}

-- Two clients have registered, and nothing was sent.
abbrev registered : ExchangeFile Value
registered = record {
  document = some (
      object (
        field (codes "datasets") null (
          field (codes "clients") (array (value (number 1) (value (number 2) end)))
            (field (codes "unregistered_clients") null no_field))));
  locked = false;
  writable = true;
  lock_in_time = true;
}

-- A product that puts the number of the round before the buffer.
abbrev mark : ℕ → List ℕ → Outcome (List ℕ × ℕ)
mark product buffer = ok (product ∷ buffer, product + 1)

abbrev bytes_at : ℕ → List ℕ
bytes_at i = if i == 0 then 5 ∷ [] else 7 ∷ []

abbrev IsMarked : ℕ → List ℕ → Type 0
IsMarked i r = (product : ℕ) × (r ≡ product ∷ bytes_at i)

abbrev both : List Entry
both = first_entry ∷ second_entry ∷ []

abbrev round : List ℕ
round = 1 ∷ 0 ∷ []

abbrev rounds : List (List ℕ)
rounds = round ∷ round ∷ round ∷ round ∷ round ∷ round ∷ round ∷ round ∷ []

-- A dataset, the end signals of both clients, and a dataset behind them.
abbrev queue_value : Value
queue_value = array (
    value (data_value 0 (codes "in/a.raw"))
      (value (end_value 2) (value (end_value 1) (value (data_value 1 (codes "in/b.raw")) end))))

abbrev ended : ExchangeFile Value
ended = record {
  document = some (
      object (
        field (codes "datasets") queue_value (
          field (codes "clients") (array (value (number 1) (value (number 2) end)))
            (field (codes "unregistered_clients") null no_field))));
  locked = false;
  writable = true;
  lock_in_time = true;
}

bind-connect_all_example :
    (bound : ExchangeFile Value) × (st' : ExchangeFile Value) × (bind documents true ended
      ≡ ok bound)
    × (connect_all documents 2000 3 bound ≡ ok (range_from 1 3, st'))
    × (st'.locked ≡ false)
    × Serves documents documents-IsJson st' [] (range_from 1 3) []
bind-connect_all_example =
    bind-connect_all documents documents-IsJson 2000 3 ended (omega arith) refl refl (omega arith)

-- A supplier server with an exchange file that holds no dataset, and the queue of its datasets.
abbrev bound : ServerFile Value
bound = record {
  exchange = record {
    document = some (object (field (codes "datasets") null no_field));
    locked = false;
    writable = true;
    lock_in_time = true;
  };
  reading = [];
}

abbrev two_queued : DataSupplyState
two_queued = record { source = two_datasets; datasets_to_provide = 0 ∷ 1 ∷ [] }

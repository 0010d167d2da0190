-- ===== src/Exchange/Readers.antt =====
-- data/dataset_supplier_server_file.cpp: a supplier server over the exchange file. Each pushed dataset
-- has a thread that reads its file ahead and then puts it into the exchange file; which thread comes
-- next is open, and is given as a list of choices.
pub mod Order
pub mod Supply
use compute_web_app.Prelude.{
  ℕ, zero, suc, ◌%◌, List, [], ◌∷◌, ◌++◌, Option, none, some, length, is_empty, ◌==◌, if◌then◌else◌,
}
use compute_web_app.Prelude.Words.{u32_max}
use compute_web_app.Prelude.Text.{Text}
use compute_web_app.Outcome.{Outcome, ok, raise, exits, fault, or_exit, ◌>>=◌}
use compute_web_app.Dataset.{Files, Dataset, get_filename}
use compute_web_app.Exchange.Library.{Json}
use compute_web_app.Exchange.{Entry, new_entry, ExchangeFile, lock_file, unlock_file, push_dataset}

-- `reading` has the datasets whose threads have not ended.
pub record ServerFile (C : Type 0) : Type 0 where
  pub exchange : ExchangeFile C
  pub reading : List Entry

-- PushDataset: a dataset with the index of the end signal is left out.
unfoldable pub push_as_server : {C : Type 0} → Dataset → ℕ → ServerFile C → Outcome (ServerFile C)
push_as_server dataset dataset_id st =
    if dataset_id == u32_max
    then ok st
    else or_exit (do
      filename ← get_filename dataset
      ok (record st {
        reading = st.reading ++ record new_entry { id = dataset_id; filename = filename } ∷ [];
      }))

-- `stat` and `mmap` of a file: a thread that misses its file, or cannot map it since it is empty,
-- throws, which ends the process.
unfoldable pub read_ahead : Files → Text → Outcome (Unit {0})
read_ahead fs name = elim (fs.contents name) [
  | none ↦ exits
  | some bytes ↦ if is_empty bytes then exits else ok tt
]

-- The entry at a position, and the others.
unfoldable pub take_at : ℕ → List Entry → Option (Entry × List Entry)
take_at k [] = none
take_at zero (e ∷ es) = some (e, es)
take_at (suc k) (e ∷ es) = elim (take_at k es) [ none ↦ none | some p ↦ some (p.0, e ∷ p.1) ]

module _ {J C : Type 0} (json : Json J C) (fs : Files) where
  run_reader : Option (Entry × List Entry) → ServerFile C → Outcome (ServerFile C)
  unfolding read_ahead lock_file unlock_file
  run_reader none st = ok st
  run_reader (some (e, others)) st = do
    _ ← read_ahead fs e.filename
    exchange ← push_dataset json e (lock_file st.exchange)
    ok (record { exchange = unlock_file exchange; reading = others })

  -- The thread that the choice k names runs to its end.
  unfoldable pub read_next : ℕ → ServerFile C → Outcome (ServerFile C)
  unfolding run_reader take_at
  read_next k st = run_reader (take_at (k % length st.reading) st.reading) st

  -- The threads run to their ends in the order of the choices.
  unfoldable pub join : List ℕ → ServerFile C → Outcome (ServerFile C)
  unfolding read_next
  join [] st = ok st
  join (k ∷ ks) st = do st' ← read_next k st; join ks st'

  -- PushEndSignal: all threads are joined first.
  unfoldable pub push_end_as_server : List ℕ → ServerFile C → Outcome (ServerFile C)
  unfolding join lock_file unlock_file
  push_end_as_server choices st = do
    st' ← join choices st
    exchange ← push_dataset json new_entry (lock_file st'.exchange)
    ok (record st' { exchange = unlock_file exchange })

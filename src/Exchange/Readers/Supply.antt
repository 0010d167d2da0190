-- ===== src/Exchange/Readers/Supply.antt =====
-- data/data_supplier.cpp over data/dataset_supplier_server_file.cpp: a supplier thread that pushes all
-- its datasets into an exchange file.
use mathlib.Core.Path.{subst}
use compute_web_app.Prelude.{
  ℕ, suc, ◌+◌, ◌≤◌, ◌<◌, ◌≡◌, ◌≢◌, refl, ap, List, [], ◌∷◌, ◌++◌, some, length, arith, ne→==,
  append_assoc, append-nil,
}
use compute_web_app.Prelude.Words.{u32_max}
use compute_web_app.Prelude.Text.{Text}
use compute_web_app.Outcome.{Outcome, ok, raise, exits, fault}
use compute_web_app.Dataset.{Files, Dataset, Data, get_filename}
use compute_web_app.Supply.{DataSupplyState, new_supply_state}
use compute_web_app.Supply.Supplier.{DatasetSupplier, RunResult, Pushes, run, finish, run-Pushes}
use compute_web_app.Exchange.Library.{Json, IsJson}
use compute_web_app.Exchange.{Entry, new_entry}
use compute_web_app.Exchange.Queue.{Shows}
use compute_web_app.Exchange.Readers.{ServerFile, push_as_server, push_end_as_server}
use compute_web_app.Exchange.Readers.Order.{Picks, AreReadable, push_end_as_server-Picks}

-- What stands in the file after an exception is not told; the thread ends there.
abbrev changed :
    {C : Type 0} → ServerFile C → Outcome (ServerFile C) → Outcome (Unit {0}) × ServerFile C
changed st (ok st') = (ok tt, st')
changed st (raise e) = (raise e, st)
changed st exits = (exits, st)
changed st fault = (fault, st)

-- The class DatasetSupplierServerFile, with the choices for the order of its threads.
abbrev pub file_server : {J C : Type 0} → Json J C → Files → List ℕ → DatasetSupplier (ServerFile C)
file_server json fs choices = record {
  push_dataset = λ dataset dataset_id st. some (changed st (push_as_server dataset dataset_id st));
  push_end_signal = λ st. changed st (push_end_as_server json fs choices st);
}

-- The entries of files with these names, with their indices upwards.
abbrev pub entries_from : ℕ → List Text → List Entry
entries_from i [] = []
entries_from i (name ∷ names) =
    record { id = i; filename = name; client_id = u32_max } ∷ entries_from (suc i) names

-- The datasets have owners, and these are the names of their files.
abbrev pub AreNamed : List Dataset → List Text → Type 0
AreNamed [] [] = Unit {0}
AreNamed [] (name ∷ names) = ⊥
AreNamed (ds ∷ dss) [] = ⊥
AreNamed (ds ∷ dss) (name ∷ names) = (get_filename ds ≡ ok name) × AreNamed dss names

pub length-AreNamed :
    (dss : List Dataset) (names : List Text) → AreNamed dss names → length names ≡ length dss
length-AreNamed [] [] h = refl
length-AreNamed [] (name ∷ names) h = absurd h
length-AreNamed (ds ∷ dss) [] h = absurd h
length-AreNamed (ds ∷ dss) (name ∷ names) h = ap suc (length-AreNamed dss names h.1)

pub length-entries_from : (i : ℕ) (names : List Text) → length (entries_from i names) ≡ length names
length-entries_from i [] = refl
length-entries_from i (name ∷ names) = ap suc (length-entries_from (suc i) names)

module _ {J C : Type 0} (json : Json J C) (laws : IsJson json) (fs : Files) (choices : List ℕ)
    (utf8 : (name : Text) (bytes : List ℕ)
      → fs.contents name ≡ some bytes
      → laws.IsPlain (json.text name)) where
  -- Each PushDataset starts a thread.
  pushes :
      (dss : List Dataset) (names : List Text) (i : ℕ) (st : ServerFile C)
      → AreNamed dss names
      → i + length dss ≤ u32_max
      → Pushes
          (file_server json fs choices)
          i
          dss
          st
          (record st { reading = st.reading ++ entries_from i names })
  unfolding push_as_server
  pushes [] [] i st named few = rw (append-nil st.reading) refl
  pushes [] (name ∷ names) i st named few = absurd named
  pushes (ds ∷ dss) [] i st named few = absurd named
  pushes (ds ∷ dss) (name ∷ names) i st named few =
      let e : Entry = record { id = i; filename = name; client_id = u32_max } in
      let st1 : ServerFile C = record st { reading = st.reading ++ e ∷ [] } in
      let other : i ≢ u32_max = omega arith in
      (
        st1,
        rw (ne→== i u32_max other, named.0) refl,
        rw (← append_assoc st.reading (e ∷ []) (entries_from (suc i) names))
            (pushes dss names (suc i) st1 named.1 (omega arith)),
      )

  -- A single supplier thread over a supplier server with an exchange file that holds no dataset and
  -- can be written, where the datasets have owners, there are fewer than 2^32 of them, and their
  -- files are there and not empty: whatever choices are made for the order of the server's threads,
  -- the loop ends with no exception on fuel above the number of datasets; the file then holds an entry
  -- for each dataset, with its index and the name of its file, in the order in which the threads ended,
  -- and the end signal behind them.
  pub run-Picks :
      (source : Data) (s : DataSupplyState) (fuel : ℕ) (names : List Text) (st : ServerFile C)
      → AreNamed source.datasets names
      → length source.datasets ≤ u32_max
      → length source.datasets < fuel
      → new_supply_state fuel source ≡ some s
      → st.reading ≡ []
      → length choices ≡ length source.datasets
      → AreReadable fs (entries_from 0 names)
      → Shows json laws st.exchange []
      → (r : RunResult (ServerFile C)) × (picked : List Entry) × (run
            (file_server json fs choices)
            fuel
            st
            s
            0
          ≡ some r)
        × (r.outcome ≡ ok tt)
        × (r.total_buffers ≡ length source.datasets)
        × Picks (entries_from 0 names) picked
        × Shows json laws r.world.exchange (picked ++ new_entry ∷ [])
  unfolding finish
  run-Picks source s fuel names st named few enough made idle m readable shows =
      let started : ServerFile C = record st { reading = st.reading ++ entries_from 0 names } in
      let reads : started.reading ≡ entries_from 0 names = rw idle refl in
      let len = length-AreNamed source.datasets names named in
      let (st', picked, ended, _, picks, shows') =
        push_end_as_server-Picks json laws fs utf8 choices started []
          (rw reads (omega (arith, length-entries_from 0 names))) (rw reads readable) shows in
      let done =
        run-Pushes (file_server json fs choices) source s fuel st started
          (pushes source.datasets names 0 st named (omega arith)) (omega arith) enough made in
      (
        finish (file_server json fs choices) started
            (record { source = source; datasets_to_provide = [] }) (length source.datasets),
        picked,
        done,
        rw ended refl,
        refl,
        subst (λ l. Picks l picked) reads picks,
        rw ended shows',
      )

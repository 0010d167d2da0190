-- ===== src/Exchange/Transfer.antt =====
-- data/dataset_supplier_client_file.cpp, data/dataset_aggregator_client_file.cpp and
-- data/dataset_aggregator_server_file.cpp: datasets that are pushed to an exchange file and pulled
-- from it. The buffers stand in files of their own.
pub mod Carried
pub mod Closed
use compute_web_app.Prelude.{
  ℕ, List, [], ◌++◌, Option, none, some, Bool, true, false, ◌==◌, if◌then◌else◌,
}
use compute_web_app.Prelude.Words.{u32_max}
use compute_web_app.Prelude.Text.{Text, codes, to_text}
use compute_web_app.Outcome.{
  Exception, Outcome, ok, raise, exits, fault, timeout, cannot_connect_to_server, no_more_supplier,
  or_exit, ◌>>=◌,
}
use compute_web_app.Dataset.{
  Files, Dataset, new_dataset, set_id, get_filename, retrieve_buffer_from_file,
}
use compute_web_app.Exchange.Library.{Json}
use compute_web_app.Exchange.{
  Entry, new_entry, ExchangeFile, lock_file, unlock_file, remove_files, wait_for_file, init,
  register_client, push_dataset, has_dataset, get_first_dataset, pop_first_dataset,
  unregister_client, are_all_clients_unregistered,
}

abbrev not_connected : Outcome (Unit {0}) → Outcome (Unit {0})
not_connected (raise timeout) = raise cannot_connect_to_server
not_connected (raise e) = raise e
not_connected (ok u) = ok u
not_connected exits = exits
not_connected fault = fault

abbrev pub allocated : Option Dataset → Dataset
allocated none = new_dataset
allocated (some dataset) = dataset

module _ {C : Type 0} where
  -- Close of a server, which its destructor calls too.
  unfoldable pub close_server : ExchangeFile C → ExchangeFile C
  unfolding remove_files
  close_server st = remove_files st

  -- Connect of an aggregator client: no client is registered.
  unfoldable pub connect_aggregator : ℕ → ExchangeFile C → Outcome (Unit {0})
  unfolding wait_for_file
  connect_aggregator timeout_ms st = not_connected (wait_for_file timeout_ms st)

module _ {J C : Type 0} (json : Json J C) where
  -- Bind of a server.
  unfoldable pub bind : Bool → ExchangeFile C → Outcome (ExchangeFile C)
  unfolding remove_files lock_file unlock_file
  bind is_aggregator st = do
    st' ← init json is_aggregator (lock_file (remove_files st))
    ok (unlock_file st')

  -- Connect of a supplier client.
  unfoldable pub connect : ℕ → ExchangeFile C → Outcome (ℕ × ExchangeFile C)
  unfolding wait_for_file lock_file unlock_file
  connect timeout_ms st = do
    _ ← not_connected (wait_for_file timeout_ms st)
    (client_id, st') ← register_client json (lock_file st)
    ok (client_id, unlock_file st')

  -- PushDataset of a supplier client. A dataset with the index of the end signal is left out.
  unfoldable pub push_as_client : Dataset → ℕ → ExchangeFile C → Outcome (ExchangeFile C)
  unfolding lock_file unlock_file
  push_as_client dataset dataset_id st =
      if dataset_id == u32_max
      then ok st
      else or_exit (do
        filename ← get_filename dataset
        st' ←
            push_dataset json (record new_entry { id = dataset_id; filename = filename })
              (lock_file st)
        ok (unlock_file st'))

  unfoldable pub push_end_as_client : ℕ → ExchangeFile C → Outcome (ExchangeFile C)
  unfolding lock_file unlock_file
  push_end_as_client client_id st = do
    st' ←
        push_dataset json (record new_entry { id = u32_max; client_id = client_id }) (lock_file st)
    ok (unlock_file st')

  -- PullDataset of an aggregator, behind its loop: the file is locked, and has a dataset. With an
  -- end signal the lock is kept for HandleEndSignal.
  pull_locked :
      Files → Option Dataset → ExchangeFile C → Outcome (Option Dataset × ℕ × ExchangeFile C)
  unfolding unlock_file retrieve_buffer_from_file set_id
  pull_locked fs dataset st = do
    e ← get_first_dataset json st
    (if e.id == u32_max then ok (dataset, e.id, st) else (do
      e' ← get_first_dataset json st
      st' ← pop_first_dataset json st
      read ← retrieve_buffer_from_file fs (allocated dataset) e'.filename
      ok (some (set_id read (codes "dataset_" ++ to_text e.id)), e.id, unlock_file st')))

  pull_if :
      Files
      → Option Dataset
      → ExchangeFile C
      → Outcome Bool
      → Option (Outcome (Option Dataset × ℕ × ExchangeFile C))
  unfolding pull_locked
  pull_if fs dataset st (ok true) = some (or_exit (pull_locked fs dataset st))
  pull_if fs dataset st (ok false) = none
  pull_if fs dataset st (raise e) = some exits
  pull_if fs dataset st exits = some exits
  pull_if fs dataset st fault = some fault

  -- While the file has no dataset PullDataset waits: `none`.
  unfoldable pub pull_from_file :
      Files
      → Option Dataset
      → ExchangeFile C
      → Option (Outcome (Option Dataset × ℕ × ExchangeFile C))
  unfolding pull_if lock_file
  pull_from_file fs dataset st = pull_if fs dataset (lock_file st) (has_dataset json (lock_file st))

  -- HandleEndSignal of an aggregator server. The file stays as it is now if there is no supplier
  -- left.
  unfoldable pub handle_end_as_server :
      ExchangeFile C → Outcome (Outcome (Unit {0}) × ExchangeFile C)
  unfolding unlock_file
  handle_end_as_server st = do
    e ← get_first_dataset json st
    st' ← unregister_client json e.client_id st
    st'' ← pop_first_dataset json st'
    last_client ← are_all_clients_unregistered json (unlock_file st'')
    ok ((if last_client then raise no_more_supplier else ok tt), unlock_file st'')

-- HandleEndSignal of an aggregator client.
unfoldable pub handle_end_as_client : {C : Type 0} → ExchangeFile C → ExchangeFile C
unfolding unlock_file
handle_end_as_client st = unlock_file st

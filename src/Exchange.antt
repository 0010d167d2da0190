-- ===== src/Exchange.antt =====
-- data/dataset_exchange_file.cpp: the file over which servers and clients exchange datasets, and its
-- lock file. The state is what stands in the two files; `locked` says that the process that uses the
-- exchange file has created the lock file. The JSON library and the text that it reads
-- and writes (of type `C`) are parameters.
pub mod Library
mod Entries
pub mod Queue
pub mod Clients
pub mod Transfer
pub mod Readers
pub mod Sections
use compute_web_app.Prelude.{
  ℕ, suc, ◌+◌, ◌%◌, List, [], ◌∷◌, Option, none, some, Bool, true, false, not, ltb, ◌==◌,
  if◌then◌else◌,
}
use compute_web_app.Prelude.Words.{u32_mod, u32_max}
use compute_web_app.Prelude.Text.{Text, codes}
use compute_web_app.Outcome.{Outcome, ok, raise, fault, timeout, json_error, ◌>>=◌}
use compute_web_app.Exchange.Library.{Json}

-- DatasetExchangeFile::Dataset
pub record Entry : Type 0 where
  pub id : ℕ
  pub filename : Text
  pub client_id : ℕ

abbrev pub new_entry : Entry
new_entry = record { id = u32_max; filename = []; client_id = u32_max }

pub record ExchangeFile (C : Type 0) : Type 0 where
  pub document : Option C
  pub locked : Bool
  pub writable : Bool
  -- Whether LockFile can create the lock file within its five seconds.
  pub lock_in_time : Bool

abbrev pub or_json_error {ℓ} : {A : Type ℓ} → Option A → Outcome A
or_json_error none = raise json_error
or_json_error (some a) = ok a

-- std::set<uint32_t>::insert
unfoldable pub set_insert : ℕ → List ℕ → List ℕ
set_insert n [] = n ∷ []
set_insert n (m ∷ ms) =
    if ltb n m then n ∷ m ∷ ms else if n == m then m ∷ ms else m ∷ set_insert n ms

unfoldable pub set_of : List ℕ → List ℕ
unfolding set_insert
set_of [] = []
set_of (n ∷ ns) = set_insert n (set_of ns)

module _ {C : Type 0} where
  -- After five seconds with a lock of another process LockFile logs an error and goes on without the
  -- lock.
  unfoldable pub lock_file : ExchangeFile C → ExchangeFile C
  lock_file st = record st { locked = st.lock_in_time }

  unfoldable pub unlock_file : ExchangeFile C → ExchangeFile C
  unlock_file st = record st { locked = false }

  unfoldable pub remove_files : ExchangeFile C → ExchangeFile C
  remove_files st = record st { document = none; locked = false }

  -- With a positive timeout the loop looks for the file at least once; with none, or a negative one,
  -- which is 0 here, it does not. The file is taken not to come while the call waits.
  unfoldable pub wait_for_file : ℕ → ExchangeFile C → Outcome (Unit {0})
  wait_for_file timeout_ms st =
      if timeout_ms == 0
      then raise timeout
      else elim st.document [ none ↦ raise timeout | some text ↦ ok tt ]

module _ {J C : Type 0} (json : Json J C) where
  or_null : Option J → J
  or_null none = json.null
  or_null (some j) = j

  parse_document : Option C → J
  unfolding or_null
  parse_document none = json.null
  parse_document (some text) = or_null (json.parse text)

  -- ReadJson: no file, and a text that does not parse, are read as null.
  unfoldable pub read_json : ExchangeFile C → J
  unfolding parse_document
  read_json st = parse_document st.document

  -- What is written without the lock may undo what others write, or be undone, so that nothing is
  -- known of the file: `fault`. A value that the library cannot write makes `<<` throw.
  unfoldable pub write_json : ExchangeFile C → J → Outcome (ExchangeFile C)
  write_json st j =
      if st.locked
      then (do
        text ← or_json_error (json.dump j)
        ok (if st.writable then record st { document = some text } else st))
      else fault

  -- `= {}` assigns null.
  unfoldable pub init : Bool → ExchangeFile C → Outcome (ExchangeFile C)
  unfolding write_json
  init is_aggregator st = do
    j ← or_json_error (json.set (codes "datasets") json.null json.null)
    j' ←
        if is_aggregator
        then (do
          k ← or_json_error (json.set (codes "clients") json.null j)
          or_json_error (json.set (codes "unregistered_clients") json.null k))
        else ok j
    write_json st j'

  -- json[key].push_back(value)
  pub push_at : Text → J → J → Outcome J
  push_at key value j = do
    old ← or_json_error (json.get key j)
    new ← or_json_error (json.push_back old value)
    or_json_error (json.set key new j)

  unfoldable pub register_client : ExchangeFile C → Outcome (ℕ × ExchangeFile C)
  unfolding read_json write_json push_at
  register_client st = do
    clients ← or_json_error (json.get (codes "clients") (read_json st))
    let client_id = (json.size clients + 1) % u32_mod
    j ← push_at (codes "clients") (json.number client_id) (read_json st)
    st' ← write_json st j
    ok (client_id, st')

  pub entry_json : Entry → Outcome J
  entry_json e = do
    j ← or_json_error (json.set (codes "id") (json.number e.id) json.null)
    k ← or_json_error (json.set (codes "filename") (json.text e.filename) j)
    (if e.client_id == u32_max
        then ok k
        else or_json_error (json.set (codes "client_id") (json.number e.client_id) k))

  unfoldable pub push_dataset : Entry → ExchangeFile C → Outcome (ExchangeFile C)
  unfolding entry_json push_at read_json write_json
  push_dataset e st = do
    d ← entry_json e
    j ← push_at (codes "datasets") d (read_json st)
    write_json st j

  unfoldable pub has_dataset : ExchangeFile C → Outcome Bool
  unfolding read_json
  has_dataset st = do
    datasets ← or_json_error (json.get (codes "datasets") (read_json st))
    ok (not (json.empty datasets))

  unfoldable pub client_id_of : J → Outcome ℕ
  client_id_of d =
      if json.contains (codes "client_id") d
      then (do n ← or_json_error (json.get (codes "client_id") d); or_json_error (json.to_number n))
      else ok u32_max

  unfoldable pub get_first_dataset : ExchangeFile C → Outcome Entry
  unfolding client_id_of read_json
  get_first_dataset st = do
    datasets ← or_json_error (json.get (codes "datasets") (read_json st))
    d ← or_json_error (json.first datasets)
    i ← or_json_error (json.get (codes "id") d)
    id ← or_json_error (json.to_number i)
    f ← or_json_error (json.get (codes "filename") d)
    filename ← or_json_error (json.to_text f)
    client_id ← client_id_of d
    ok (record { id = id; filename = filename; client_id = client_id })

  unfoldable pub pop_first_dataset : ExchangeFile C → Outcome (ExchangeFile C)
  unfolding read_json write_json
  pop_first_dataset st = do
    datasets ← or_json_error (json.get (codes "datasets") (read_json st))
    rest ← or_json_error (json.erase_first datasets)
    j ← or_json_error (json.set (codes "datasets") rest (read_json st))
    write_json st j

  unregistered : J → Outcome (List ℕ)
  unfolding set_of
  unregistered v =
      if json.is_null v then ok [] else (do ns ← or_json_error (json.to_numbers v); ok (set_of ns))

  unfoldable pub unregister_client : ℕ → ExchangeFile C → Outcome (ExchangeFile C)
  unfolding unregistered set_insert read_json write_json
  unregister_client client_id st = do
    v ← or_json_error (json.get (codes "unregistered_clients") (read_json st))
    ids ← unregistered v
    j ← or_json_error (
        json.set (codes "unregistered_clients") (json.numbers (set_insert client_id ids))
          (read_json st))
    write_json st j

  unfoldable pub are_all_clients_unregistered : ExchangeFile C → Outcome Bool
  unfolding read_json
  are_all_clients_unregistered st = do
    clients ← or_json_error (json.get (codes "clients") (read_json st))
    gone ← or_json_error (json.get (codes "unregistered_clients") (read_json st))
    ok (json.equal clients gone)

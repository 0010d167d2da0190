-- ===== src/Exchange/Transfer/Carried.antt =====
-- What is pushed to an exchange file is pulled from it.
use compute_web_app.Prelude.{
  ℕ, ◌≡◌, ◌≢◌, refl, List, [], ◌∷◌, ◌++◌, Option, some, true, false, ne→==, ==_iff,
}
use compute_web_app.Prelude.Words.{u32_max}
use compute_web_app.Prelude.Text.{Text, codes, to_text}
use compute_web_app.Outcome.{ok}
use compute_web_app.Dataset.{
  Files, Dataset, set_id, retain_buffer, get_filename, retrieve_buffer_from_file, read_file,
}
use compute_web_app.Exchange.Library.{Json, IsJson}
use compute_web_app.Exchange.{
  Entry, ExchangeFile, lock_file, unlock_file, read_json, pop_first_dataset,
}
use compute_web_app.Exchange.Queue.{
  Shows, push_dataset-Shows, has_dataset-Shows, first-Shows, front-Shows,
}
use compute_web_app.Exchange.Transfer.{allocated, push_as_client, pull_from_file, pull_locked}

retrieved :
    (fs : Files) (ds : Dataset) (name : Text) (bytes : List ℕ)
    → fs.contents name ≡ some bytes
    → retrieve_buffer_from_file fs ds name ≡ ok (retain_buffer ds bytes)
unfolding retrieve_buffer_from_file read_file retain_buffer
retrieved fs ds name bytes h = rw (retrieve_buffer_from_file, read_file, h) refl

module _ {J C : Type 0} (json : Json J C) (laws : IsJson json) where
  pub Shows-lock :
      (st : ExchangeFile C) (queue : List Entry)
      → Shows json laws st queue
      → Shows json laws (lock_file st) queue
  unfolding lock_file read_json
  Shows-lock st queue shows = record {
    writable = shows.writable;
    lock_in_time = shows.lock_in_time;
    object = shows.object;
    value = shows.value;
    items = shows.items;
    found = shows.found;
    holds = shows.holds;
    entries = shows.entries;
  }

  -- LockFile creates the lock file.
  pub locked_in_time :
      (st : ExchangeFile C) (queue : List Entry)
      → Shows json laws st queue
      → (lock_file st).locked ≡ true
  unfolding lock_file
  locked_in_time st queue shows = shows.lock_in_time

  pub Shows-unlock :
      (st : ExchangeFile C) (queue : List Entry)
      → Shows json laws st queue
      → Shows json laws (unlock_file st) queue
  unfolding unlock_file read_json
  Shows-unlock st queue shows = record {
    writable = shows.writable;
    lock_in_time = shows.lock_in_time;
    object = shows.object;
    value = shows.value;
    items = shows.items;
    found = shows.found;
    holds = shows.holds;
    entries = shows.entries;
  }

  -- A supplier client's PushDataset puts the index and the file name of a dataset at the end of the
  -- queue, for a dataset with an owner and an index below 2^32 - 1; the lock is free afterwards.
  pub push_as_client-Shows :
      (st : ExchangeFile C) (queue : List Entry) (ds : Dataset) (id : ℕ) (name : Text)
      → get_filename ds ≡ ok name
      → laws.IsPlain (json.text name)
      → id ≢ u32_max
      → Shows json laws st queue
      → (st' : ExchangeFile C) × (push_as_client json ds id st ≡ ok st')
        × (st'.locked ≡ false)
        × Shows json laws st'
            (queue ++ record { id = id; filename = name; client_id = u32_max } ∷ [])
  unfolding push_as_client
  push_as_client-Shows st queue ds id name named utf8 other shows =
      let e : Entry = record { id = id; filename = name; client_id = u32_max } in
      let (st', pushed, shows', _) =
        push_dataset-Shows json laws (lock_file st) queue e (locked_in_time st queue shows) utf8
          (Shows-lock st queue shows) in
      (
        unlock_file st',
        rw (ne→== id u32_max other, named, pushed) refl,
        refl,
        Shows-unlock st' (queue ++ e ∷ []) shows',
      )

  -- PullDataset of a dataset, in terms of PopFirstDataset.
  pub pull_from_file-pops :
      (fs : Files) (target : Option Dataset) (st st' : ExchangeFile C) (e : Entry)
      (queue : List Entry) (bytes : List ℕ)
      → e.id ≢ u32_max
      → fs.contents e.filename ≡ some bytes
      → Shows json laws st (e ∷ queue)
      → pop_first_dataset json (lock_file st) ≡ ok st'
      → pull_from_file json fs target st
        ≡ some (
            ok (
              some (
                  set_id
                    (retain_buffer (allocated target) bytes)
                    (codes "dataset_" ++ to_text e.id)),
              e.id,
              unlock_file st',
            ))
  unfolding pull_from_file
  pull_from_file-pops fs target st st' e queue bytes other stands shows popped =
      let locked = Shows-lock st (e ∷ queue) shows in
      let (first, _) = front-Shows json laws (lock_file st) e queue locked in
      rw
        (
          has_dataset-Shows json laws (lock_file st) (e ∷ queue) locked,
          pull_locked,
          first,
          ne→== e.id u32_max other,
          popped,
          retrieved fs (allocated target) e.filename bytes stands,
        )
        refl

  -- An aggregator's PullDataset, where the dataset at the front of the queue is no end signal and
  -- its file is there: the dataset gets the id `dataset_<index>` and the bytes of the file, the queue
  -- loses its front, and the lock is free afterwards.
  pub pull_from_file-Shows :
      (fs : Files) (target : Option Dataset) (st : ExchangeFile C) (e : Entry) (queue : List Entry)
      (bytes : List ℕ)
      → e.id ≢ u32_max
      → fs.contents e.filename ≡ some bytes
      → Shows json laws st (e ∷ queue)
      → (st' : ExchangeFile C) × (pull_from_file json fs target st
          ≡ some (
              ok (
                some (
                    set_id
                      (retain_buffer (allocated target) bytes)
                      (codes "dataset_" ++ to_text e.id)),
                e.id,
                st',
              )))
        × (st'.locked ≡ false)
        × Shows json laws st' queue
  unfolding unlock_file
  pull_from_file-Shows fs target st e queue bytes other stands shows =
      let (_, (st', popped, shows')) =
        first-Shows json laws (lock_file st) e queue (locked_in_time st (e ∷ queue) shows)
          (Shows-lock st (e ∷ queue) shows) in
      (
        unlock_file st',
        pull_from_file-pops fs target st st' e queue bytes other stands shows popped,
        refl,
        Shows-unlock st' queue shows',
      )

  -- At an end signal PullDataset leaves the dataset, the queue and the file as they are, and keeps the
  -- lock.
  pub pull_from_file-end :
      (fs : Files) (target : Option Dataset) (st : ExchangeFile C) (e : Entry) (queue : List Entry)
      → e.id ≡ u32_max
      → Shows json laws st (e ∷ queue)
      → pull_from_file json fs target st ≡ some (ok (target, e.id, lock_file st))
  unfolding pull_from_file
  pull_from_file-end fs target st e queue end shows =
      let locked = Shows-lock st (e ∷ queue) shows in
      let (first, _) = front-Shows json laws (lock_file st) e queue locked in
      rw
        (
          has_dataset-Shows json laws (lock_file st) (e ∷ queue) locked,
          pull_locked,
          first,
          (==_iff e.id u32_max).1 end,
        )
        refl

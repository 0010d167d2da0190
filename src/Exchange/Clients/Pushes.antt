-- ===== src/Exchange/Clients/Pushes.antt =====
-- What a registered client pushes to the exchange file.
use compute_web_app.Prelude.{ℕ, ◌≡◌, ◌≢◌, refl, ◌∙◌, List, [], ◌∷◌, ◌++◌, true, false, ne→==}
use compute_web_app.Prelude.Words.{u32_max}
use compute_web_app.Prelude.Text.{Text, codes}
use compute_web_app.Outcome.{ok}
use compute_web_app.Dataset.{Dataset, get_filename}
use compute_web_app.Exchange.Library.{Json, IsJson}
use compute_web_app.Exchange.{Entry, ExchangeFile, lock_file, unlock_file, push_dataset}
use compute_web_app.Exchange.Transfer.{push_as_client, push_end_as_client}
use compute_web_app.Exchange.Queue.{push_dataset-Shows}
use compute_web_app.Exchange.Transfer.Carried.{locked_in_time}
use compute_web_app.Exchange.Clients.{Serves}
use compute_web_app.Exchange.Clients.Connect.{Serves-lock}
use compute_web_app.Exchange.Clients.Ends.{Serves-unlock, unlocked}

module _ {J C : Type 0} (json : Json J C) (laws : IsJson json) (st : ExchangeFile C)
    (queue : List Entry) (clients gone : List ℕ) where
  -- PushDataset leaves the clients as they are.
  push_dataset-Serves :
      (e : Entry)
      → st.locked ≡ true
      → laws.IsPlain (json.text e.filename)
      → Serves json laws st queue clients gone
      → (st' : ExchangeFile C) × (push_dataset json e st ≡ ok st')
        × Serves json laws st' (queue ++ e ∷ []) clients gone
  push_dataset-Serves e locked utf8 serves =
      let (st', pushed, shows, keeps) =
        push_dataset-Shows json laws st queue e locked utf8 serves.shows in
      (
        st',
        pushed,
        record {
          shows = shows;
          clients_value = serves.clients_value;
          gone_value = serves.gone_value;
          clients_found = keeps (codes "clients") refl ∙ serves.clients_found;
          gone_found = keeps (codes "unregistered_clients") refl ∙ serves.gone_found;
          clients_held = serves.clients_held;
          gone_held = serves.gone_held;
        },
      )

module _ {J C : Type 0} (json : Json J C) (laws : IsJson json) (st : ExchangeFile C)
    (queue : List Entry) (clients gone : List ℕ)
    (serves : Serves json laws st queue clients gone) where
  pushed_locked :
      (e : Entry)
      → laws.IsPlain (json.text e.filename)
      → (st' : ExchangeFile C) × (push_dataset json e (lock_file st) ≡ ok st')
        × ((unlock_file st').locked ≡ false)
        × Serves json laws (unlock_file st') (queue ++ e ∷ []) clients gone
  pushed_locked e utf8 =
      let (st', pushed, serves') =
        push_dataset-Serves json laws (lock_file st) queue clients gone e
          (locked_in_time json laws st queue serves.shows) utf8
          (Serves-lock json laws st queue clients gone serves) in
      (
        st',
        pushed,
        unlocked st',
        Serves-unlock json laws st' (queue ++ e ∷ []) clients gone serves',
      )

  -- PushDataset of a supplier client, on a dataset with an owner.
  pub push_as_client-Serves :
      (ds : Dataset) (id : ℕ) (name : Text)
      → get_filename ds ≡ ok name
      → laws.IsPlain (json.text name)
      → id ≢ u32_max
      → (st' : ExchangeFile C) × (push_as_client json ds id st ≡ ok st')
        × (st'.locked ≡ false)
        × Serves json laws st'
            (queue ++ record { id = id; filename = name; client_id = u32_max } ∷ [])
            clients
            gone
  unfolding push_as_client
  push_as_client-Serves ds id name named utf8 other =
      let (st', pushed, free, serves') =
        pushed_locked (record { id = id; filename = name; client_id = u32_max }) utf8 in
      (unlock_file st', rw (ne→== id u32_max other, named, pushed) refl, free, serves')

  -- PushEndSignal of a supplier client.
  pub push_end_as_client-Serves :
      (client_id : ℕ)
      → (st' : ExchangeFile C) × (push_end_as_client json client_id st ≡ ok st')
        × (st'.locked ≡ false)
        × Serves json laws st'
            (queue ++ record { id = u32_max; filename = []; client_id = client_id } ∷ [])
            clients
            gone
  unfolding push_end_as_client
  push_end_as_client-Serves client_id =
      let (st', pushed, free, serves') =
        pushed_locked (record { id = u32_max; filename = []; client_id = client_id })
          (laws.plain_ascii [] refl) in
      (unlock_file st', rw pushed refl, free, serves')

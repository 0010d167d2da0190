-- ===== src/Exchange/Clients/Ends.antt =====
-- The end signals of clients in the exchange file.
use compute_web_app.Prelude.{
  ◌≤◌, range_from, length-range_from, ltb, ◌==◌, ℕ, ◌+◌, ◌<◌, ◌≡◌, refl, ap, ◌∙◌, inl, inr, List,
  [], ◌∷◌, Bool, true, false, length, map, ◌↔◌, arith, if◌then◌else◌, Bool-cases,
}
use compute_web_app.Prelude.Text.{codes}
use compute_web_app.Outcome.{ok, raise, no_more_supplier}
use compute_web_app.Exchange.Library.{Json, IsJson}
use compute_web_app.Exchange.{
  Entry, ExchangeFile, read_json, unlock_file, set_insert, set_of, are_all_clients_unregistered,
  pop_first_dataset,
}
use compute_web_app.Exchange.Queue.{front-Shows}
use compute_web_app.Exchange.Transfer.{handle_end_as_server}
use compute_web_app.Exchange.Transfer.Carried.{Shows-unlock}
use compute_web_app.Socket.Server.Registration.{Rise}
use compute_web_app.Exchange.Clients.Ordered.{
  HasAll, set_insert-Rise, set_of-Rise, range_from-HasAll,
}
use compute_web_app.Exchange.Clients.{HoldsNumbers, Serves, unregister_client-Serves}

length-set_insert : (n : ℕ) (ns : List ℕ) → 0 < length (set_insert n ns)
unfolding set_insert
length-set_insert n [] = omega arith
length-set_insert n (m ∷ ns) = elim (Bool-cases (ltb n m)) [
  | inl lower ↦ rw lower (omega arith)
  | inr higher ↦ elim (Bool-cases (n == m)) [
    | inl same ↦ rw (higher, same) (omega arith)
    | inr other ↦ rw (higher, other) (omega arith)
  ]
]

pub unlocked : {C : Type 0} (st : ExchangeFile C) → (unlock_file st).locked ≡ false
unfolding unlock_file
unlocked st = refl

module _ {J C : Type 0} (json : Json J C) (laws : IsJson json) where
  -- PopFirstDataset leaves the clients as they are.
  pub pop_first_dataset-Serves :
      (st : ExchangeFile C) (e : Entry) (queue : List Entry) (clients gone : List ℕ)
      → st.locked ≡ true
      → Serves json laws st (e ∷ queue) clients gone
      → (st' : ExchangeFile C) × (pop_first_dataset json st ≡ ok st')
        × Serves json laws st' queue clients gone
  pop_first_dataset-Serves st e queue clients gone locked serves =
      let (st', popped, shows', _, keeps) =
        (front-Shows json laws st e queue serves.shows).1 locked in
      (
        st',
        popped,
        record {
          shows = shows';
          clients_value = serves.clients_value;
          gone_value = serves.gone_value;
          clients_found = keeps (codes "clients") refl ∙ serves.clients_found;
          gone_found = keeps (codes "unregistered_clients") refl ∙ serves.gone_found;
          clients_held = serves.clients_held;
          gone_held = serves.gone_held;
        },
      )

  pub Serves-unlock :
      (st : ExchangeFile C) (queue : List Entry) (clients gone : List ℕ)
      → Serves json laws st queue clients gone
      → Serves json laws (unlock_file st) queue clients gone
  unfolding unlock_file read_json
  Serves-unlock st queue clients gone serves = record {
    shows = Shows-unlock json laws st queue serves.shows;
    clients_value = serves.clients_value;
    gone_value = serves.gone_value;
    clients_found = serves.clients_found;
    gone_found = serves.gone_found;
    clients_held = serves.clients_held;
    gone_held = serves.gone_held;
  }

  -- The comparison of AreAllClientsUnregistered.
  all_gone :
      (st : ExchangeFile C) (queue : List Entry) (clients gone : List ℕ)
      → Serves json laws st queue clients gone
      → 0 < length clients
      → 0 < length gone
      → (b : Bool) × (are_all_clients_unregistered json st ≡ ok b) × ((b ≡ true) ↔ (clients ≡ gone))
  unfolding are_all_clients_unregistered
  all_gone st queue clients gone serves some_client some_gone = (
    json.equal serves.clients_value serves.gone_value,
    rw (serves.clients_found, serves.gone_found) refl,
    rw
        (
          held_array serves.clients_value clients serves.clients_held some_client,
          held_array serves.gone_value gone serves.gone_held some_gone,
        )
        (laws.equal_arrays clients gone),
  )
    where
      held_array :
          (v : J) (ns : List ℕ)
          → HoldsNumbers json laws v ns
          → 0 < length ns
          → v ≡ laws.array (map json.number ns)
      held_array v ns (inl (_, none_yet)) h = absurd (omega (arith, ap length none_yet))
      held_array v ns (inr is_array) h = is_array

  -- HandleEndSignal, in terms of the set of the clients that have ended.
  handle_end_as_server-Serves :
      (st : ExchangeFile C) (e : Entry) (queue : List Entry) (clients gone : List ℕ)
      → st.locked ≡ true
      → Serves json laws st (e ∷ queue) clients gone
      → 0 < length clients
      → (st' : ExchangeFile C) × (b : Bool) × (handle_end_as_server json st
          ≡ ok ((if b then raise no_more_supplier else ok tt), st'))
        × ((b ≡ true) ↔ (clients ≡ set_insert e.client_id (set_of gone)))
        × (st'.locked ≡ false)
        × Serves json laws st' queue clients (set_insert e.client_id (set_of gone))
  unfolding handle_end_as_server
  handle_end_as_server-Serves st e queue clients gone locked serves some_client =
      let ids = set_insert e.client_id (set_of gone) in
      let first = (front-Shows json laws st e queue serves.shows).0 in
      let (st1, left, locked1, serves1) =
        unregister_client-Serves json laws st (e ∷ queue) clients gone e.client_id locked serves in
      let (st2, popped, serves2) =
        pop_first_dataset-Serves st1 e queue clients ids locked1 serves1 in
      let serves3 = Serves-unlock st2 queue clients ids serves2 in
      let (b, compared, meaning) =
        all_gone (unlock_file st2) queue clients ids serves3 some_client
          (length-set_insert e.client_id (set_of gone)) in
      (unlock_file st2, b, rw (first, left, popped, compared) refl, meaning, unlocked st2, serves3)

  -- HandleEndSignal of an aggregator server that holds the lock, with the clients 1 to n registered, some of them ended,
  -- and the end signal of one of them at the front of the queue: the end signal is taken off the
  -- queue, its client joins those that have ended, and the lock is free. NoMoreSupplierException is
  -- thrown if each of the clients 1 to n has then ended, and not otherwise.
  pub handle_end_as_server-last :
      (st : ExchangeFile C) (e : Entry) (queue : List Entry) (n : ℕ) (gone : List ℕ)
      → st.locked ≡ true
      → Serves json laws st (e ∷ queue) (range_from 1 n) gone
      → Rise 1 (1 + n) gone
      → 1 ≤ e.client_id
      → e.client_id ≤ n
      → (st' : ExchangeFile C) × (b : Bool) × (handle_end_as_server json st
          ≡ ok ((if b then raise no_more_supplier else ok tt), st'))
        × ((b ≡ true) ↔ HasAll n (e.client_id ∷ gone))
        × (st'.locked ≡ false)
        × Serves json laws st' queue (range_from 1 n) (set_insert e.client_id gone)
        × Rise 1 (1 + n) (set_insert e.client_id gone)
  handle_end_as_server-last st e queue n gone locked serves rise low high =
      let (st', b, handled, (all_ended, ended_all), lock, serves') =
        rw (set_of-Rise 1 (1 + n) gone rise) at (
          handle_end_as_server-Serves st e queue (range_from 1 n) gone locked serves
            (omega (arith, length-range_from 1 n))) in
      let rise' = set_insert-Rise 1 (1 + n) e.client_id gone rise low (omega arith) in
      let (to, from) = range_from-HasAll n e.client_id gone rise' in
      (st', b, handled, (λ h. to (all_ended h), λ h. ended_all (from h)), lock, serves', rise')

-- ===== src/Exchange/Clients.antt =====
-- The clients that are registered in the exchange file, and those of them that have ended.
pub mod Ordered
pub mod Ends
pub mod Connect
pub mod Pushes
pub mod Session
use mathlib.Core.Path.{subst}
use compute_web_app.Prelude.{
  ltb, ◌==◌, ℕ, zero, suc, ◌+◌, ◌%◌, ◌<◌, ◌≡◌, refl, sym, ap, ◌∙◌, ◌⊎◌, inl, inr, List, [], ◌∷◌,
  ◌++◌, Option, some, Bool, true, false, length, map, ◌↔◌, arith, if◌then◌else◌, Bool-cases,
}
use compute_web_app.Prelude.Words.{u32_mod}
use compute_web_app.Prelude.Text.{Text, codes, text_eq}
use compute_web_app.Outcome.{Outcome, ok, raise, no_more_supplier}
use compute_web_app.Exchange.Library.{Json, IsJson}
use compute_web_app.Exchange.{
  Entry, ExchangeFile, read_json, write_json, unlock_file, push_at, set_insert, set_of,
  register_client, unregistered, unregister_client, are_all_clients_unregistered, pop_first_dataset,
  get_first_dataset,
}
use compute_web_app.Exchange.Entries.{Holds, AreEntries}
use compute_web_app.Exchange.Queue.{Shows, Keeps, key-Writes, read_json-IsPlain, front-Shows}
use compute_web_app.Exchange.Transfer.{handle_end_as_server}
use compute_web_app.Exchange.Transfer.Carried.{Shows-unlock}

length-map : {A B : Type 0} (f : A → B) (xs : List A) → length (map f xs) ≡ length xs
length-map f [] = refl
length-map f (x ∷ xs) = ap suc (length-map f xs)

map-last :
    {A B : Type 0} (f : A → B) (xs : List A) (x : A) → map f (xs ++ x ∷ []) ≡ map f xs ++ f x ∷ []
map-last f [] x = refl
map-last f (y ∷ xs) x = ap (◌∷◌ (f y)) (map-last f xs x)

module _ {J C : Type 0} (json : Json J C) (laws : IsJson json) where
  -- Null, or an array of these numbers.
  abbrev pub HoldsNumbers : J → List ℕ → Type 0
  HoldsNumbers v ns = ((v ≡ json.null) × (ns ≡ [])) ⊎ (v ≡ laws.array (map json.number ns))

  -- The file holds this queue, these registered clients and those that have ended.
  pub record Serves (st : ExchangeFile C) (queue : List Entry) (clients gone : List ℕ)
      : Type 0 where
    pub shows : Shows json laws st queue
    pub clients_value : J
    pub gone_value : J
    pub clients_found : json.get (codes "clients") (read_json json st) ≡ some clients_value
    pub gone_found : json.get (codes "unregistered_clients") (read_json json st) ≡ some gone_value
    pub clients_held : HoldsNumbers clients_value clients
    pub gone_held : HoldsNumbers gone_value gone

  -- The queue is under a key of its own.
  Shows-Keeps :
      (st st' : ExchangeFile C) (queue : List Entry) (key : Text)
      → Shows json laws st queue
      → text_eq (codes "datasets") key ≡ false
      → st'.writable ≡ true
      → st'.lock_in_time ≡ st.lock_in_time
      → laws.IsObject (read_json json st')
      → Keeps json laws key st st'
      → Shows json laws st' queue
  Shows-Keeps st st' queue key shows ne w in_time obj keeps = record {
    writable = w;
    lock_in_time = in_time ∙ shows.lock_in_time;
    object = obj;
    value = shows.value;
    items = shows.items;
    found = keeps (codes "datasets") ne ∙ shows.found;
    holds = shows.holds;
    entries = shows.entries;
  }

  size-HoldsNumbers : (v : J) (ns : List ℕ) → HoldsNumbers v ns → json.size v ≡ length ns
  size-HoldsNumbers v ns (inl (is_null, none_yet)) = rw (is_null, none_yet) laws.size_null
  size-HoldsNumbers v ns (inr is_array) =
      rw is_array (laws.size_array (map json.number ns) ∙ length-map json.number ns)

  push-HoldsNumbers :
      (v : J) (ns : List ℕ) (n : ℕ)
      → HoldsNumbers v ns
      → json.push_back v (json.number n) ≡ some (laws.array (map json.number (ns ++ n ∷ [])))
  push-HoldsNumbers v ns n (inl (is_null, none_yet)) =
      rw (is_null, none_yet) (laws.push_back_null (json.number n))
  push-HoldsNumbers v ns n (inr is_array) =
      rw (is_array, map-last json.number ns n)
        (laws.push_back_array (map json.number ns) (json.number n))

  -- RegisterClient, with the lock and fewer than 2^32 - 1 clients before, gives the next id, and adds it behind
  -- the clients; the queue and the clients that have ended are as before.
  pub register_client-Serves :
      (st : ExchangeFile C) (queue : List Entry) (clients gone : List ℕ)
      → st.locked ≡ true
      → Serves st queue clients gone
      → length clients + 1 < u32_mod
      → (st' : ExchangeFile C) × (register_client json st ≡ ok (length clients + 1, st'))
        × Serves st' queue (clients ++ (length clients + 1) ∷ []) gone
  unfolding register_client push_at
  register_client-Serves st queue clients gone locked serves few =
      let id = length clients + 1 in
      let more = laws.array (map json.number (clients ++ id ∷ [])) in
      let pushed = push-HoldsNumbers serves.clients_value clients id serves.clients_held in
      let plain : laws.IsPlain more =
        laws.plain_push_back serves.clients_value (json.number id) more
          (laws.plain_get (codes "clients") (read_json json st) serves.clients_value
            (read_json-IsPlain json laws st) serves.clients_found)
          (laws.plain_number id) pushed in
      let (j, st', set, writes, obj, got, keeps) =
        key-Writes json laws (codes "clients") more st serves.shows.writable locked
          serves.shows.object refl plain in
      let size : (json.size serves.clients_value + 1) % u32_mod ≡ id =
        rw (size-HoldsNumbers serves.clients_value clients serves.clients_held) (omega arith) in
      (
        st',
        rw (serves.clients_found, size, pushed, set, writes.0) refl,
        record {
          shows =
              Shows-Keeps st st' queue (codes "clients") serves.shows refl writes.2 writes.3 obj
                keeps;
          clients_value = more;
          gone_value = serves.gone_value;
          clients_found = got;
          gone_found = keeps (codes "unregistered_clients") refl ∙ serves.gone_found;
          clients_held = inr refl;
          gone_held = serves.gone_held;
        },
      )

  -- The clients that have ended, as UnregisterClient reads them.
  unregistered-HoldsNumbers :
      (v : J) (ns : List ℕ) → HoldsNumbers v ns → unregistered json v ≡ ok (set_of ns)
  unfolding unregistered set_of
  unregistered-HoldsNumbers v ns (inl (is_null, none_yet)) =
      rw (is_null, none_yet, laws.is_null_null) refl
  unregistered-HoldsNumbers v ns (inr is_array) =
      rw (is_array, laws.is_null_array (map json.number ns), laws.to_numbers_array ns) refl

  pub unregister_client-Serves :
      (st : ExchangeFile C) (queue : List Entry) (clients gone : List ℕ) (client_id : ℕ)
      → st.locked ≡ true
      → Serves st queue clients gone
      → (st' : ExchangeFile C) × (unregister_client json client_id st ≡ ok st')
        × (st'.locked ≡ true)
        × Serves st' queue clients (set_insert client_id (set_of gone))
  unfolding unregister_client
  unregister_client-Serves st queue clients gone client_id locked serves =
      let ids = set_insert client_id (set_of gone) in
      let (j, st', set, writes, obj, got, keeps) =
        key-Writes json laws (codes "unregistered_clients") (json.numbers ids) st
          serves.shows.writable locked serves.shows.object refl (laws.plain_numbers ids) in
      (
        st',
        rw
            (
              serves.gone_found,
              unregistered-HoldsNumbers serves.gone_value gone serves.gone_held,
              set,
              writes.0,
            )
            refl,
        writes.4,
        record {
          shows =
              Shows-Keeps st st' queue (codes "unregistered_clients") serves.shows refl writes.2
                writes.3 obj keeps;
          clients_value = serves.clients_value;
          gone_value = json.numbers ids;
          clients_found = keeps (codes "clients") refl ∙ serves.clients_found;
          gone_found = got;
          clients_held = serves.clients_held;
          gone_held = inr (laws.numbers_array ids);
        },
      )

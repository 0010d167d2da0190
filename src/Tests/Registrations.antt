-- ===== src/Tests/Registrations.antt =====
-- The theorems on the clients in the exchange file at a concrete input.
use compute_web_app.Prelude.{
  ◌+◌, ◌≡◌, ◌↔◌, refl, inl, inr, [], ◌∷◌, none, some, Bool, true, false, arith, range_from,
  if◌then◌else◌,
}
use compute_web_app.Prelude.Words.{u32_max}
use compute_web_app.Prelude.Text.{codes}
use compute_web_app.Outcome.{ok, raise, no_more_supplier, cannot_connect_to_server}
use compute_web_app.Tests.Fixtures.{empty_disk}
use compute_web_app.Exchange.Transfer.Closed.{
  are_all_clients_unregistered-IsUnreadable, close_server-Misses,
}
use compute_web_app.Socket.Server.Registration.{Rise}
use compute_web_app.Exchange.{
  Entry, ExchangeFile, read_json, client_id_of, set_insert, are_all_clients_unregistered,
}
use compute_web_app.Exchange.Transfer.{
  connect, handle_end_as_server, close_server, connect_aggregator, pull_from_file,
}
use compute_web_app.Exchange.Clients.{Serves}
use compute_web_app.Exchange.Clients.Ordered.{HasAll}
use compute_web_app.Exchange.Clients.Ends.{handle_end_as_server-last}
use compute_web_app.Tests.Documents.{
  Value, number, text, array, object, end, value, no_field, field, documents, documents-IsJson,
}

abbrev last_entry : Entry
last_entry = record { id = u32_max; filename = []; client_id = 1 }

abbrev last_value : Value
last_value = object (
    field (codes "client_id") (number 1)
      (field (codes "filename") (text []) (field (codes "id") (number u32_max) no_field)))

abbrev served_document : Value
served_document = object (
    field (codes "datasets") (array (value last_value end)) (
      field (codes "clients") (array (value (number 1) (value (number 2) end)))
        (field (codes "unregistered_clients") (array (value (number 2) end)) no_field)))

-- Two clients, of which the second has ended.
abbrev served_file : ExchangeFile Value
served_file = record {
  document = some served_document;
  locked = true;
  writable = true;
  lock_in_time = true;
}

served_file-Serves :
    Serves documents documents-IsJson served_file (last_entry ∷ []) (range_from 1 2) (2 ∷ [])
unfolding read_json client_id_of
served_file-Serves = record {
  shows = record {
    writable = refl;
    lock_in_time = refl;
    object = tt;
    value = array (value last_value end);
    items = last_value ∷ [];
    found = refl;
    holds = inr refl;
    entries = (
      record {
        id = (number u32_max, refl, refl);
        filename = (text [], refl, refl);
        client_id = refl;
      },
      tt,
    );
  };
  clients_value = array (value (number 1) (value (number 2) end));
  gone_value = array (value (number 2) end);
  clients_found = refl;
  gone_found = refl;
  clients_held = inr refl;
  gone_held = inr refl;
}

handle_end_as_server-last_example :
    (st' : ExchangeFile Value) × (b : Bool) × (handle_end_as_server documents served_file
      ≡ ok ((if b then raise no_more_supplier else ok tt), st'))
    × ((b ≡ true) ↔ HasAll 2 (1 ∷ 2 ∷ []))
    × (st'.locked ≡ false)
    × Serves documents documents-IsJson st' [] (range_from 1 2) (set_insert 1 (2 ∷ []))
    × Rise 1 (1 + 2) (set_insert 1 (2 ∷ []))
handle_end_as_server-last_example =
    handle_end_as_server-last documents documents-IsJson served_file last_entry [] 2 (2 ∷ []) refl
      served_file-Serves (omega arith, omega arith, tt) (omega arith) (omega arith)

are_all_clients_unregistered-IsUnreadable_example :
    are_all_clients_unregistered documents
      (record { document = none; locked = false; writable = true; lock_in_time = true })
    ≡ ok true
are_all_clients_unregistered-IsUnreadable_example =
    are_all_clients_unregistered-IsUnreadable documents documents-IsJson
      (record { document = none; locked = false; writable = true; lock_in_time = true }) (inl refl)

close_server-Misses_example :
    (connect documents 0 (close_server served_file) ≡ raise cannot_connect_to_server)
    × (connect_aggregator 0 (close_server served_file) ≡ raise cannot_connect_to_server)
    × (pull_from_file documents empty_disk none (close_server served_file) ≡ none)
close_server-Misses_example =
    close_server-Misses documents documents-IsJson empty_disk none 0 served_file

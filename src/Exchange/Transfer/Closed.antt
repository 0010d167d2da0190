-- ===== src/Exchange/Transfer/Closed.antt =====
-- The exchange file when it is not there, or cannot be read.
use compute_web_app.Prelude.{
  ℕ, Bool, true, false, ◌==◌, if◌then◌else◌, ◌≡◌, refl, ◌⊎◌, inl, inr, Option, none, some, true,
}
use compute_web_app.Prelude.Text.{codes}
use compute_web_app.Outcome.{Outcome, timeout, ok, raise, cannot_connect_to_server}
use compute_web_app.Dataset.{Files, Dataset}
use compute_web_app.Exchange.Library.{Json, IsJson}
use compute_web_app.Exchange.{
  wait_for_file, ExchangeFile, read_json, lock_file, has_dataset, are_all_clients_unregistered,
}
use compute_web_app.Exchange.Transfer.{close_server, connect_aggregator, connect, pull_from_file}

-- With no file a wait ends with the timeout, at once or later.
gives_up :
    (at_once : Bool)
    → ◌≡◌ {A = Outcome (Unit {0})}
        (if at_once then raise timeout else raise timeout)
        (raise timeout)
gives_up true = refl
gives_up false = refl

module _ {J C : Type 0} (json : Json J C) (laws : IsJson json) where
  -- No file, or one whose text does not parse, as while another process writes it.
  abbrev pub IsUnreadable : ExchangeFile C → Type 0
  IsUnreadable st =
      (st.document ≡ none) ⊎ ((text : C) × (st.document ≡ some text) × (json.parse text ≡ none))

  read_json-null : (st : ExchangeFile C) → IsUnreadable st → read_json json st ≡ json.null
  unfolding read_json
  read_json-null st (inl missing) = rw missing refl
  read_json-null st (inr (text, there, broken)) = rw (there, broken) refl

  -- Where the file is not there, or its text does not parse, AreAllClientsUnregistered answers that
  -- all clients have ended, whoever is registered.
  pub are_all_clients_unregistered-IsUnreadable :
      (st : ExchangeFile C) → IsUnreadable st → are_all_clients_unregistered json st ≡ ok true
  unfolding are_all_clients_unregistered
  are_all_clients_unregistered-IsUnreadable st broken =
      rw
        (
          read_json-null st broken,
          laws.get_null (codes "clients"),
          laws.get_null (codes "unregistered_clients"),
          laws.equal_null,
        )
        refl

  -- After Close of a server, whatever stood in the file: Connect of a client of either kind, with any
  -- timeout, throws CannotConnectToServerException, and PullDataset of a client that was connected waits.
  pub close_server-Misses :
      (fs : Files) (target : Option Dataset) (timeout_ms : ℕ) (st : ExchangeFile C)
      → (connect json timeout_ms (close_server st) ≡ raise cannot_connect_to_server)
        × (connect_aggregator timeout_ms (close_server st) ≡ raise cannot_connect_to_server)
        × (pull_from_file json fs target (close_server st) ≡ none)
  unfolding close_server wait_for_file connect connect_aggregator pull_from_file lock_file
      has_dataset
  close_server-Misses fs target timeout_ms st =
      let gone : ExchangeFile C = lock_file (close_server st) in
      (
        rw (gives_up (timeout_ms == 0)) refl,
        rw (gives_up (timeout_ms == 0)) refl,
        rw (read_json-null gone (inl refl), laws.get_null (codes "datasets"), laws.empty_null) refl,
      )

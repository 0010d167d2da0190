-- ===== src/Exchange/Clients/Connect.antt =====
-- Connect of a supplier client over the exchange file.
use compute_web_app.Prelude.{
  ne→==, ℕ, zero, suc, ◌+◌, ◌<◌, ◌≡◌, refl, ap, ◌∙◌, List, [], ◌∷◌, ◌++◌, some, false, range_from,
  length-range_from, arith,
}
use compute_web_app.Prelude.Words.{u32_mod}
use compute_web_app.Outcome.{ok}
use compute_web_app.Exchange.Library.{Json, IsJson}
use compute_web_app.Exchange.{Entry, ExchangeFile, read_json, wait_for_file, lock_file, unlock_file}
use compute_web_app.Exchange.Transfer.{connect}
use compute_web_app.Exchange.Transfer.Carried.{Shows-lock, locked_in_time}
use compute_web_app.Exchange.Clients.{Serves, register_client-Serves}
use compute_web_app.Exchange.Clients.Ends.{Serves-unlock, unlocked}

range_from-last : (i n : ℕ) → range_from i n ++ (i + n) ∷ [] ≡ range_from i (suc n)
range_from-last i zero = let same : i + 0 ≡ i = omega arith in rw same refl
range_from-last i (suc n) =
    let same : i + suc n ≡ suc i + n = omega arith in
    rw same (ap (◌∷◌ i) (range_from-last (suc i) n))

waits :
    {C : Type 0} (timeout_ms : ℕ) (st : ExchangeFile C) (text : C)
    → 0 < timeout_ms
    → st.document ≡ some text
    → wait_for_file timeout_ms st ≡ ok tt
unfolding wait_for_file
waits timeout_ms st text positive there = rw (ne→== timeout_ms 0 (omega arith), there) refl

module _ {J C : Type 0} (json : Json J C) (laws : IsJson json) where
  pub Serves-lock :
      (st : ExchangeFile C) (queue : List Entry) (clients gone : List ℕ)
      → Serves json laws st queue clients gone
      → Serves json laws (lock_file st) queue clients gone
  unfolding lock_file read_json
  Serves-lock st queue clients gone serves = record {
    shows = Shows-lock json laws st queue serves.shows;
    clients_value = serves.clients_value;
    gone_value = serves.gone_value;
    clients_found = serves.clients_found;
    gone_found = serves.gone_found;
    clients_held = serves.clients_held;
    gone_held = serves.gone_held;
  }

  pub connect-Serves :
      (timeout_ms : ℕ) (st : ExchangeFile C) (text : C) (queue : List Entry) (n : ℕ) (gone : List ℕ)
      → 0 < timeout_ms
      → st.document ≡ some text
      → Serves json laws st queue (range_from 1 n) gone
      → n + 1 < u32_mod
      → (st' : ExchangeFile C) × (connect json timeout_ms st ≡ ok (n + 1, st'))
        × (st'.locked ≡ false)
        × Serves json laws st' queue (range_from 1 (n + 1)) gone
  unfolding connect
  connect-Serves timeout_ms st text queue n gone positive there serves few =
      let len = length-range_from 1 n in
      let (st1, registered, serves1) = rw len at (
        register_client-Serves json laws (lock_file st) queue (range_from 1 n) gone
          (locked_in_time json laws st queue serves.shows)
          (Serves-lock st queue (range_from 1 n) gone serves) (omega arith)) in
      let next : 1 + n ≡ n + 1 = omega arith in
      let up : suc n ≡ n + 1 = omega arith in
      let all : range_from 1 n ++ (n + 1) ∷ [] ≡ range_from 1 (n + 1) =
        rw next at (range_from-last 1 n) ∙ ap (range_from 1) up in
      (
        unlock_file st1,
        rw (waits timeout_ms st text positive there, registered) refl,
        unlocked st1,
        Serves-unlock json laws st1 queue (range_from 1 (n + 1)) gone (rw all at serves1),
      )

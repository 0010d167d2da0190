-- ===== src/Exchange/Clients/Session.antt =====
-- An aggregator server binds to an exchange file, and supplier clients connect to it.
use compute_web_app.Prelude.{
  ℕ, zero, suc, ◌+◌, ◌<◌, ◌≡◌, refl, sym, ap, ◌∙◌, inl, inr, List, [], ◌∷◌, some, true, false,
  length, map, range_from, length-range_from, arith, Option-cases,
}
use compute_web_app.Prelude.Words.{u32_mod}
use compute_web_app.Prelude.Text.{codes}
use compute_web_app.Outcome.{Outcome, ok, ◌>>=◌}
use compute_web_app.Exchange.Library.{Json, IsJson}
use compute_web_app.Exchange.{
  Entry, ExchangeFile, read_json, init, lock_file, unlock_file, remove_files, parse_document,
}
use compute_web_app.Exchange.Queue.{empty_key, write_json-Writes}
use compute_web_app.Exchange.Transfer.{bind, connect}
use compute_web_app.Exchange.Clients.{HoldsNumbers, Serves}
use compute_web_app.Exchange.Clients.Connect.{connect-Serves}
use compute_web_app.Exchange.Clients.Ends.{Serves-unlock}

-- n clients connect one after the other.
abbrev pub connect_all :
    {J C : Type 0} → Json J C → ℕ → ℕ → ExchangeFile C → Outcome (List ℕ × ExchangeFile C)
connect_all json timeout_ms zero st = ok ([], st)
connect_all json timeout_ms (suc n) st = do
  (client_id, st') ← connect json timeout_ms st
  (client_ids, st'') ← connect_all json timeout_ms n st'
  ok (client_id ∷ client_ids, st'')

module _ {J C : Type 0} (json : Json J C) (laws : IsJson json) where
  -- Init of an aggregator makes a file with no clients.
  init-Serves :
      (st : ExchangeFile C)
      → st.writable ≡ true
      → st.lock_in_time ≡ true
      → st.locked ≡ true
      → (st' : ExchangeFile C) × (text : C) × (init json true st ≡ ok st')
        × (st'.document ≡ some text)
        × Serves json laws st' [] [] []
  unfolding init
  init-Serves st w in_time locked =
      let (j, set, obj, got, _, _) =
        laws.set_object (codes "datasets") json.null json.null laws.null_object in
      let (k, set', obj', got', _, others') = laws.set_object (codes "clients") json.null j obj in
      let (l, set'', obj'', got'', _, others'') =
        laws.set_object (codes "unregistered_clients") json.null k obj' in
      let plain =
        empty_key json laws (codes "unregistered_clients") k l refl
          (empty_key json laws (codes "clients") j k refl
            (empty_key json laws (codes "datasets") json.null j refl laws.plain_null set) set')
          set'' in
      let (st', (wrote, same, w', in_time', _, (text, there))) =
        write_json-Writes json laws st l w locked plain in
      (
        st',
        text,
        rw (set, set', set'') wrote,
        there,
        record {
          shows = record {
            writable = w';
            lock_in_time = in_time' ∙ in_time;
            object = rw same obj'';
            value = json.null;
            items = [];
            found =
                rw same (
                  (others'' (codes "datasets") refl).0 ∙ (others' (codes "datasets") refl).0 ∙ got);
            holds = inl (refl, refl);
            entries = tt;
          };
          clients_value = json.null;
          gone_value = json.null;
          clients_found = rw same ((others'' (codes "clients") refl).0 ∙ got');
          gone_found = rw same got'';
          clients_held = inl (refl, refl);
          gone_held = inl (refl, refl);
        },
      )

  -- A file with a client is there.
  client-document :
      (st : ExchangeFile C) (queue : List Entry) (clients gone : List ℕ)
      → Serves json laws st queue clients gone
      → 0 < length clients
      → (text : C) × (st.document ≡ some text)
  unfolding read_json parse_document
  client-document st queue clients gone serves some_client = elim (Option-cases st.document) [
    | inr there ↦ there
    | inl missing ↦
        let found : json.get (codes "clients") json.null ≡ some serves.clients_value =
          rw missing at serves.clients_found in
        let is_null : json.null ≡ serves.clients_value =
          same_value json.null serves.clients_value
            (sym (laws.get_null (codes "clients")) ∙ found) in
        absurd (no_array serves.clients_value clients serves.clients_held some_client is_null)
  ]
    where
      same_value : (a b : J) → some a ≡ some b → a ≡ b
      same_value a b e = cc

      no_array :
          (v : J) (ns : List ℕ) → HoldsNumbers json laws v ns → 0 < length ns → json.null ≡ v → ⊥
      no_array v ns (inl (_, none_yet)) h e = absurd (omega (arith, ap length none_yet))
      no_array v ns (inr is_array) h e =
          let yes_null : json.is_null v ≡ true = rw (← e) laws.is_null_null in
          let no_null : json.is_null v ≡ false =
            rw is_array (laws.is_null_array (map json.number ns)) in
          cc

  connect_all-Serves :
      (timeout_ms k n : ℕ) (st : ExchangeFile C) (text : C) (queue : List Entry) (gone : List ℕ)
      → 0 < timeout_ms
      → st.document ≡ some text
      → st.locked ≡ false
      → Serves json laws st queue (range_from 1 n) gone
      → n + k < u32_mod
      → (st' : ExchangeFile C) × (connect_all json timeout_ms k st ≡ ok (range_from (n + 1) k, st'))
        × (st'.locked ≡ false)
        × Serves json laws st' queue (range_from 1 (n + k)) gone
  connect_all-Serves timeout_ms zero n st text queue gone positive there free serves few =
      let same : n ≡ n + 0 = omega arith in (st, refl, free, rw same at serves)
  connect_all-Serves timeout_ms (suc k) n st text queue gone positive there free serves few =
      let (st1, connected, free1, serves1) =
        connect-Serves json laws timeout_ms st text queue n gone positive there serves
          (omega arith) in
      let (text1, there1) =
        client-document st1 queue (range_from 1 (n + 1)) gone serves1
          (omega (arith, length-range_from 1 (n + 1))) in
      let (st2, all, free2, serves2) =
        connect_all-Serves timeout_ms k (n + 1) st1 text1 queue gone positive there1 free1 serves1
          (omega arith) in
      let next : n + 1 + 1 ≡ suc (n + 1) = omega arith in
      let size : n + 1 + k ≡ n + suc k = omega arith in
      (st2, rw (connected, all, next) refl, free2, rw size at serves2)

  -- Bind of an aggregator server to an exchange file that can be written and locked in time, whatever stood in it, and
  -- then Connect of fewer than 2^32 - 1 supplier clients, with a positive timeout, one after the other: none of them throws, they
  -- get the ids 1, 2, ..., and the file has no dataset, these clients, none of which has ended, and no
  -- lock.
  pub bind-connect_all :
      (timeout_ms n : ℕ) (st : ExchangeFile C)
      → 0 < timeout_ms
      → st.writable ≡ true
      → st.lock_in_time ≡ true
      → n + 1 < u32_mod
      → (bound : ExchangeFile C) × (st' : ExchangeFile C) × (bind json true st ≡ ok bound)
        × (connect_all json timeout_ms n bound ≡ ok (range_from 1 n, st'))
        × (st'.locked ≡ false)
        × Serves json laws st' [] (range_from 1 n) []
  unfolding bind remove_files lock_file unlock_file
  bind-connect_all timeout_ms n st positive w in_time few =
      let (st1, text, made, there, serves) =
        init-Serves (lock_file (remove_files st)) w in_time in_time in
      let (st2, all, free, serves') =
        connect_all-Serves timeout_ms n 0 (unlock_file st1) text [] [] positive there refl
          (Serves-unlock json laws st1 [] [] [] serves) (omega arith) in
      let size : 0 + n ≡ n = omega arith in
      (unlock_file st1, st2, rw made refl, all, free, rw size at serves')

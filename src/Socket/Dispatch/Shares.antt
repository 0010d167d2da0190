-- ===== src/Socket/Dispatch/Shares.antt =====
-- What each client of a supplier server is sent.
use native.Mathlib.Nat.{mod-lt}
use compute_web_app.Prelude.{
  not_empty, Bool-cases, inl, inr, ℕ, suc, ◌%◌, ◌<◌, ◌≡◌, refl, ap, ◌∙◌, List, [], ◌∷◌, ◌++◌, some,
  true, length, get_elem?-total, arith, append_assoc, ◌==◌, if◌then◌else◌,
}
use compute_web_app.Prelude.Words.{u32_mod, u32_max, u32_bytes}
use compute_web_app.Outcome.{ok}
use compute_web_app.Dataset.{Files, Dataset, Data, get_size, retrieve_buffer}
use compute_web_app.Dataset.Buffers.{get_size-retrieve_buffer, size_of}
use compute_web_app.Supply.{DataSupplyState, new_supply_state}
use compute_web_app.Supply.Supplier.{RunResult, Pushes, run, finish, run-Pushes}
use compute_web_app.Socket.{Asio, NoShortCall, Socket, send}
use compute_web_app.Socket.Frames.{send_lem}
use compute_web_app.Socket.Server.{client_ids}
use compute_web_app.Socket.Server.Registration.{Rise}
use compute_web_app.Socket.Stream.{frames}
use compute_web_app.Socket.Dispatch.Appends.{
  Clients, Applies, Appends, Applies-Appends, length-client_ids, Applies-none, Applies-trans,
  client_ids-Applies, only, update_socket-Applies,
}
use compute_web_app.Socket.Dispatch.{
  ServerSupplier, update_socket, send_frame, push_dataset, push_to, send_to_all, push_end_signal,
  server_supplier, after_push,
}

-- The buffers of the datasets, each short enough for its length to be sent.
abbrev pub AreBuffers : Files → List Dataset → List (List ℕ) → Type 0
AreBuffers fs [] [] = Unit {0}
AreBuffers fs [] (b ∷ bs) = ⊥
AreBuffers fs (ds ∷ dss) [] = ⊥
AreBuffers fs (ds ∷ dss) (b ∷ bs) =
    (retrieve_buffer fs ds ≡ ok b) × (length b < u32_mod) × AreBuffers fs dss bs

-- The share of position j among k clients: the buffers with an index that leaves the remainder j,
-- from index i on.
abbrev pub dealt : ℕ → ℕ → List (List ℕ) → ℕ → List (ℕ × List ℕ)
dealt k i [] j = []
dealt k i (b ∷ bs) j = if i % k == j then (i, b) ∷ dealt k (suc i) bs j else dealt k (suc i) bs j

module _ (asio : Asio) where
  -- The calls of `send` for one buffer: its index, its length and the buffer.
  abbrev send_buffer : ℕ → List ℕ → Socket → Socket
  send_buffer i b s = send asio b (send asio (u32_bytes (length b)) (send asio (u32_bytes i) s))

  -- The calls of `send` for these buffers, each with its index, and for the end signal.
  abbrev pub send_frames : List (ℕ × List ℕ) → Socket → Socket
  send_frames [] s = send asio (u32_bytes u32_max) s
  send_frames ((i, b) ∷ more) s = send_frames more (send_buffer i b s)

  send_to_all-Applies :
      (j : ℕ) (cs : Clients)
      → Applies (λ _ s. send asio (u32_bytes u32_max) s) j cs (send_to_all asio cs)
  unfolding send_to_all
  send_to_all-Applies j [] = tt
  send_to_all-Applies j ((a, s) ∷ cs) = (refl, refl, send_to_all-Applies (suc j) cs)

  -- What is sent of a share.
  abbrev send_share : ℕ → ℕ → List (List ℕ) → ℕ → Socket → Socket
  send_share k i [] j s = s
  send_share k i (b ∷ bs) j s = send_share k (suc i) bs j (only (i % k) (send_buffer i b) j s)

  send_share-frames :
      (k i : ℕ) (bs : List (List ℕ)) (j : ℕ) (s : Socket)
      → send_frames (dealt k i bs j) s ≡ send asio (u32_bytes u32_max) (send_share k i bs j s)
  send_share-frames k i [] j s = refl
  send_share-frames k i (b ∷ bs) j s = elim (Bool-cases (i % k == j)) [
    | inl here ↦ rw here (send_share-frames k (suc i) bs j (send_buffer i b s))
    | inr other ↦ rw other (send_share-frames k (suc i) bs j s)
  ]

  -- In a run without a short call, the bytes of the frames.
  send_frames-bytes :
      NoShortCall asio
      → (sent : List (ℕ × List ℕ)) (s : Socket)
      → (send_frames sent s).bytes ≡ s.bytes ++ frames sent
  send_frames-bytes whole [] s = rw (send_lem asio whole (u32_bytes u32_max) s) refl
  send_frames-bytes whole ((i, b) ∷ more) s =
      send_frames-bytes whole more (send_buffer i b s) ∙ simp (send_lem asio whole, append_assoc)

module _ (asio : Asio) (fs : Files) where
  abbrev with_sockets : ServerSupplier → Clients → ServerSupplier
  with_sockets st cs = record st { server = record st.server { client_sockets = cs } }

  push_dataset-Applies :
      (ds : Dataset) (b : List ℕ) (i hi : ℕ) (st : ServerSupplier)
      → retrieve_buffer fs ds ≡ ok b
      → length b < u32_mod
      → Rise 0 hi (client_ids st.server.client_sockets)
      → 0 < length st.server.client_sockets
      → (cs : Clients) × (push_dataset asio fs ds i st ≡ some (ok (with_sockets st cs)))
        × Applies
            (only (i % length st.server.client_sockets) (send_buffer asio i b))
            0
            st.server.client_sockets
            cs
  unfolding push_dataset send_frame
  push_dataset-Applies ds b i hi st h short r some_client =
      let size : get_size fs ds ≡ ok (length b) = get_size-retrieve_buffer fs ds ∙ ap size_of h in
      let small : length b % u32_mod ≡ length b = omega arith in
      let cs = st.server.client_sockets in
      let n = length-client_ids cs in
      let (k, chosen) =
        get_elem?-total (client_ids cs) (i % length (client_ids cs)) (mod-lt i (omega arith)) in
      (
        update_socket k (send_frame asio i (length b) b) cs,
        rw (size, h, not_empty (client_ids cs) (omega arith), chosen, push_to) refl,
        rw (← n) (
            update_socket-Applies (send_frame asio i (length b) b) (send_buffer asio i b) 0 hi 0
              (i % length (client_ids cs)) (i % length (client_ids cs)) k cs
              (λ s. rw (send_frame, small) refl) r chosen (omega arith)),
      )

  -- Dataset i goes to the client at position i modulo the number of clients.
  Pushes-share :
      (dss : List Dataset) (bs : List (List ℕ)) (i hi k : ℕ) (st : ServerSupplier)
      → AreBuffers fs dss bs
      → Rise 0 hi (client_ids st.server.client_sockets)
      → length st.server.client_sockets ≡ k
      → 0 < k
      → (cs : Clients) × Pushes (server_supplier asio fs) i dss st (with_sockets st cs)
        × Applies (send_share asio k i bs) 0 st.server.client_sockets cs
  unfolding server_supplier
  Pushes-share [] [] i hi k st h r e some_client = (
    st.server.client_sockets,
    refl,
    Applies-none (send_share asio k i []) 0 st.server.client_sockets (λ p s _. refl),
  )
  Pushes-share [] (b ∷ bs) i hi k st h r e some_client = absurd h
  Pushes-share (ds ∷ dss) [] i hi k st h r e some_client = absurd h
  Pushes-share (ds ∷ dss) (b ∷ bs) i hi k st h r e some_client =
      let old = st.server.client_sockets in
      let (cs, pushed, one) = push_dataset-Applies ds b i hi st h.0 h.1 r (omega arith) in
      let one' : Applies (only (i % k) (send_buffer asio i b)) 0 old cs = rw e at one in
      let ids = client_ids-Applies (only (i % k) (send_buffer asio i b)) 0 old cs one' in
      let same : length cs ≡ k =
        omega (arith, ap length ids, length-client_ids cs, length-client_ids old) in
      let (cs', pushes, more) =
        Pushes-share dss bs (suc i) hi k (with_sockets st cs) h.2 (rw ids r) same some_client in
      (
        cs',
        (with_sockets st cs, rw (pushed, after_push) refl, pushes),
        Applies-trans (only (i % k) (send_buffer asio i b)) (send_share asio k (suc i) bs)
            (send_share asio k i (b ∷ bs)) 0 old cs cs' (λ p s. refl) one' more,
      )

  pub run-sends :
      (source : Data) (bs : List (List ℕ)) (s : DataSupplyState) (fuel hi : ℕ) (st : ServerSupplier)
      → AreBuffers fs source.datasets bs
      → Rise 0 hi (client_ids st.server.client_sockets)
      → 0 < length st.server.client_sockets
      → length source.datasets < u32_mod
      → length source.datasets < fuel
      → new_supply_state fuel source ≡ some s
      → (r : RunResult ServerSupplier) × (run (server_supplier asio fs) fuel st s 0 ≡ some r)
        × (r.outcome ≡ ok tt)
        × (r.world.server.stop_registering ≡ true)
        × Applies
            (λ j. send_frames asio (dealt (length st.server.client_sockets) 0 bs j))
            0
            st.server.client_sockets
            r.world.server.client_sockets
  unfolding finish server_supplier push_end_signal
  run-sends source bs s fuel hi st buffers r some_client small enough made =
      let old = st.server.client_sockets in
      let (cs, pushes, shares) =
        Pushes-share source.datasets bs 0 hi (length old) st buffers r refl some_client in
      (
        finish (server_supplier asio fs) (with_sockets st cs)
            (record { source = source; datasets_to_provide = [] }) (length source.datasets),
        run-Pushes (server_supplier asio fs) source s fuel st (with_sockets st cs) pushes small
            enough made,
        refl,
        refl,
        Applies-trans (send_share asio (length old) 0 bs) (λ _ s. send asio (u32_bytes u32_max) s)
            (λ j. send_frames asio (dealt (length old) 0 bs j)) 0 old cs (send_to_all asio cs)
            (λ p s. send_share-frames asio (length old) 0 bs p s) shares
            (send_to_all-Applies asio 0 cs),
      )

  -- In a run without a short call, the bytes that the clients are sent.
  pub run-share :
      NoShortCall asio
      → (source : Data) (bs : List (List ℕ)) (s : DataSupplyState) (fuel hi : ℕ)
        (st : ServerSupplier)
      → AreBuffers fs source.datasets bs
      → Rise 0 hi (client_ids st.server.client_sockets)
      → 0 < length st.server.client_sockets
      → length source.datasets < u32_mod
      → length source.datasets < fuel
      → new_supply_state fuel source ≡ some s
      → (r : RunResult ServerSupplier) × (run (server_supplier asio fs) fuel st s 0 ≡ some r)
        × (r.outcome ≡ ok tt)
        × (r.world.server.stop_registering ≡ true)
        × Appends
            (λ j. frames (dealt (length st.server.client_sockets) 0 bs j))
            0
            st.server.client_sockets
            r.world.server.client_sockets
  run-share whole source bs s fuel hi st buffers r some_client small enough made =
      let (result, ran, outcome, stopped, sent) =
        run-sends source bs s fuel hi st buffers r some_client small enough made in
      let k = length st.server.client_sockets in
      (
        result,
        ran,
        outcome,
        stopped,
        Applies-Appends (λ j. send_frames asio (dealt k 0 bs j)) (λ j. frames (dealt k 0 bs j)) 0
            st.server.client_sockets result.world.server.client_sockets
            (λ p s. send_frames-bytes asio whole (dealt k 0 bs p) s) sent,
      )

-- ===== src/Socket/Stream.antt =====
-- What a worker's supplier client pushes, the server's thread for that client receives, dataset for
-- dataset.
use compute_web_app.Prelude.{
  ℕ, zero, suc, ◌+◌, ◌<◌, ◌≡◌, refl, sym, ap, ◌∙◌, List, [], ◌∷◌, ◌++◌, Option, some, length, arith,
  append-nil, append_assoc, ne→==,
}
use compute_web_app.Prelude.Words.{u32_mod, u32_max, u32_bytes}
use compute_web_app.Outcome.{Outcome, ok, ◌>>=◌}
use compute_web_app.Dataset.{Files, Dataset, retrieve_buffer}
use compute_web_app.Socket.{
  receive_u32, with_entry, Asio, IsAsio, NoShortCall, Socket, push_dataset, push_end_signal,
  DatasetStruct, Received, serve_client, after_id,
}
use compute_web_app.Socket.Receive.{receive_all_exact}
use compute_web_app.Socket.Frames.{frame, receive_u32-u32_bytes, send_lem, push_dataset-frame}

-- The frames of these buffers, each with its index, and the end signal.
abbrev pub frames : List (ℕ × List ℕ) → List ℕ
frames [] = u32_bytes u32_max
frames ((i, b) ∷ more) = frame i b ++ frames more

-- The entries for these buffers, and that of the end signal.
abbrev pub entries : ℕ → List (ℕ × List ℕ) → List DatasetStruct
entries client_id [] = record { client_id = client_id; id = u32_max; buffer = [] } ∷ []
entries client_id ((i, b) ∷ more) =
    record { client_id = client_id; id = i; buffer = b } ∷ entries client_id more

-- No index is that of the end signal, and each buffer is short enough for its length to be sent.
abbrev pub AreFrames : List (ℕ × List ℕ) → Type 0
AreFrames [] = Unit {0}
AreFrames ((i, b) ∷ more) = (i < u32_max) × (length b < u32_mod) × AreFrames more

-- The indices are the same, and the buffers are those of the datasets.
abbrev pub AreRetrieved : Files → List (ℕ × Dataset) → List (ℕ × List ℕ) → Type 0
AreRetrieved fs [] [] = Unit {0}
AreRetrieved fs [] (f ∷ more) = ⊥
AreRetrieved fs (d ∷ dss) [] = ⊥
AreRetrieved fs ((i, ds) ∷ dss) ((j, b) ∷ more) =
    (j ≡ i) × (retrieve_buffer fs ds ≡ ok b) × AreRetrieved fs dss more

-- What a worker does with its supplier client: PushDataset for each of its datasets with the index
-- that it has, and PushEndSignal.
abbrev pub push_all : Asio → Files → List (ℕ × Dataset) → Socket → Outcome Socket
push_all asio fs [] s = ok (push_end_signal asio s)
push_all asio fs ((i, ds) ∷ more) s = do s' ← push_dataset asio fs ds i s; push_all asio fs more s'

module _ (asio : Asio) (laws : IsAsio asio) (whole : NoShortCall asio) where
  after_id-frame :
      (client_id i old_id old_length calls : ℕ) (b more : List ℕ)
      (next : ℕ → ℕ → Socket → Option Received)
      → length b < u32_mod
      → i < u32_max
      → (calls' : ℕ) × (after_id asio client_id old_length next
            (receive_u32 asio old_id (record { bytes = frame i b ++ more; calls = calls }))
          ≡ with_entry
              (record { client_id = client_id; id = i; buffer = b })
              (next i (length b) (record { bytes = more; calls = calls' })))
  unfolding after_id
  after_id-frame client_id i old_id old_length calls b more next short h =
      let (calls', e) = receive_all_exact asio laws b more (calls + 1 + 1) in
      (
        calls',
        rw
            (
              append_assoc (u32_bytes i) (u32_bytes (length b) ++ b) more,
              append_assoc (u32_bytes (length b)) b more,
              receive_u32-u32_bytes asio whole old_id i (u32_bytes (length b) ++ (b ++ more)) calls
                  (omega arith),
              ne→== i u32_max (omega arith),
              receive_u32-u32_bytes asio whole old_length (length b) (b ++ more) (calls + 1) short,
              e,
            )
            refl,
      )

  -- In a run without a short call, where `receive` behaves as documented, the server's thread for a
  -- client reads the frames that arrive one by one into entries, however the buffers are split, and
  -- ends at the end signal; the indices are below 2^32 - 1, the buffers shorter than 2^32 bytes,
  -- and the fuel above the number of frames.
  pub serve_client-frames :
      (client_id fuel old_id old_length calls : ℕ) (sent : List (ℕ × List ℕ)) (rest : List ℕ)
      → AreFrames sent
      → length sent < fuel
      → serve_client asio client_id fuel old_id old_length
          (record { bytes = frames sent ++ rest; calls = calls })
        ≡ some (record { outcome = ok tt; entries = entries client_id sent })
  unfolding serve_client
  serve_client-frames client_id zero old_id old_length calls sent rest short k =
      absurd (omega arith)
  serve_client-frames client_id (suc fuel) old_id old_length calls [] rest short k =
      rw (receive_u32-u32_bytes asio whole old_id u32_max rest calls (omega arith)) refl
  serve_client-frames client_id (suc fuel) old_id old_length calls ((i, b) ∷ sent) rest short k =
      let next = λ (id size : ℕ) (s : Socket). serve_client asio client_id fuel id size s in
      let (calls', e) =
        after_id-frame client_id i old_id old_length calls b (frames sent ++ rest) next short.1
          short.0 in
      let ih =
        serve_client-frames client_id fuel i (length b) calls' sent rest short.2 (omega arith) in
      rw (append_assoc (frame i b) (frames sent) rest)
        (e ∙ ap (with_entry (record { client_id = client_id; id = i; buffer = b })) ih)

  -- What a supplier client sends: the frames of the datasets, and then the end signal.
  push_all-frames :
      (fs : Files) (dss : List (ℕ × Dataset)) (sent : List (ℕ × List ℕ)) (s : Socket)
      → AreRetrieved fs dss sent
      → AreFrames sent
      → (calls : ℕ) × (push_all asio fs dss s
          ≡ ok (record { bytes = s.bytes ++ frames sent; calls = calls }))
  unfolding push_end_signal
  push_all-frames fs [] [] s h short =
      (s.calls + 1, ap ok (send_lem asio whole (u32_bytes u32_max) s))
  push_all-frames fs [] (f ∷ sent) s h short = absurd h
  push_all-frames fs (d ∷ dss) [] s h short = absurd h
  push_all-frames fs ((i, ds) ∷ dss) ((j, b) ∷ sent) s h short =
      let (calls, e) = push_dataset-frame asio whole fs ds b i s h.1 short.1 in
      let s' : Socket = record { bytes = s.bytes ++ frame i b; calls = calls } in
      let (calls', more) = push_all-frames fs dss sent s' h.2 short.2 in
      (
        calls',
        rw (e, h.0, more)
            (ap (λ bytes. ok (record { bytes = bytes; calls = calls' }))
              (append_assoc s.bytes (frame i b) (frames sent))),
      )

  pub push_all-serve_client :
      (fs : Files) (dss : List (ℕ × Dataset)) (sent : List (ℕ × List ℕ))
      (fuel client_id old_id old_length calls : ℕ)
      → AreRetrieved fs dss sent
      → AreFrames sent
      → length sent < fuel
      → (last : Socket) × (push_all asio fs dss (record { bytes = []; calls = 0 }) ≡ ok last)
        × (serve_client asio client_id fuel old_id old_length
              (record { bytes = last.bytes; calls = calls })
            ≡ some (record { outcome = ok tt; entries = entries client_id sent }))
  push_all-serve_client fs dss sent fuel client_id old_id old_length calls found short enough =
      let (calls', e) =
        push_all-frames fs dss sent (record { bytes = []; calls = 0 }) found short in
      (
        record { bytes = frames sent; calls = calls' },
        e,
        ap
              (λ (bytes : List ℕ).
                serve_client asio client_id fuel old_id old_length
                  (record { bytes = bytes; calls = calls }))
              (sym (append-nil (frames sent)))
            ∙ serve_client-frames client_id fuel old_id old_length calls sent [] short enough,
      )

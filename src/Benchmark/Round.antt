-- ===== src/Benchmark/Round.antt =====
-- A worker that is connected to both servers over sockets: the frames that it gets and those it sends.
use compute_web_app.Prelude.{
  ℕ, zero, suc, ◌+◌, ◌<◌, ◌≡◌, refl, ap, ◌∙◌, List, [], ◌∷◌, ◌++◌, Option, none, some, false,
  length, arith, ne→==, append_assoc, not_empty, is_empty,
}
use compute_web_app.Prelude.Words.{u32_mod, u32_max, u32_bytes}
use compute_web_app.Outcome.{Outcome, ok}
use compute_web_app.Dataset.{Files, Dataset, set_id, retain_buffer, retrieve_buffer}
use compute_web_app.Socket.{
  Asio, IsAsio, NoShortCall, Socket, pull_dataset, push_dataset, push_end_signal, fill_dataset,
}
use compute_web_app.Socket.Frames.{
  frame, send_lem, push_dataset-frame, pull_dataset-frame, pull_dataset-end,
}
use compute_web_app.Socket.Stream.{frames, AreFrames}
use compute_web_app.Benchmark.{
  AggregatorClient, SupplierClient, WorkerState, work_on, work, keep_result,
}

-- The classes DatasetAggregatorClientSocket and DatasetSupplierClientSocket.
abbrev pub socket_aggregator : Asio → AggregatorClient Socket
socket_aggregator asio = record {
  pull_dataset = λ index dataset s. pull_dataset asio index dataset s;
  handle_end_signal = λ s. s;
}

abbrev pub socket_supplier : Asio → SupplierClient Socket
socket_supplier asio = record {
  push_dataset = λ fs dataset index s. push_dataset asio fs dataset index s;
  push_end_signal = λ s. ok (push_end_signal asio s);
}

found_buffer :
    (fs : Files) (ds : Dataset) (r : List ℕ)
    → ds.buffer ≡ r
    → is_empty r ≡ false
    → retrieve_buffer fs ds ≡ ok r
unfolding retrieve_buffer
found_buffer fs ds r h k = rw (h, k) refl

module _ {C : Type 0} (multiply : C → List ℕ → Outcome (List ℕ × C)) where
  -- The results of these buffers, with their indices: each is computed with the state that the one
  -- before left, and is not empty.
  abbrev pub AreProduced : C → List (ℕ × List ℕ) → List (ℕ × List ℕ) → Type 0
  AreProduced c [] [] = Unit {0}
  AreProduced c [] (r ∷ results) = ⊥
  AreProduced c (b ∷ sent) [] = ⊥
  AreProduced c ((i, b) ∷ sent) ((j, r) ∷ results) =
      (j ≡ i)
      × (0 < length r)
      × ((c' : C) × (multiply c b ≡ ok (r, c')) × AreProduced c' sent results)

  abbrev pub State : Type 0
  State = WorkerState Socket Socket C

  abbrev pub socket_work : Asio → ℕ → State → Option (Outcome State)
  socket_work asio = work (socket_aggregator asio) (socket_supplier asio) multiply

  module _ (asio : Asio) (laws : IsAsio asio) (whole : NoShortCall asio) where
    fill_dataset-buffer :
        (ds : Option Dataset) (i : ℕ) (b : List ℕ) → (fill_dataset ds i b).buffer ≡ b
    unfolding fill_dataset
    fill_dataset-buffer none i b = refl
    fill_dataset-buffer (some ds) i b = refl

    -- One dataset: its result is sent as a frame with its index.
    work_on-frame :
        (st : State) (ds : Dataset) (b r : List ℕ) (c' : C)
        → ds.buffer ≡ b
        → st.output_id ≡ none
        → multiply st.product b ≡ ok (r, c')
        → 0 < length r
        → length r < u32_mod
        → (out : Dataset) × (calls : ℕ) × (work_on
              (socket_aggregator asio)
              (socket_supplier asio)
              multiply
              st
              (some ds)
            ≡ ok (record st {
              dataset_in = some ds;
              dataset_out = out;
              product = c';
              output = record { bytes = st.output.bytes ++ frame st.index r; calls = calls };
            }))
    unfolding work_on retain_buffer keep_result
    work_on-frame st ds b r c' same sockets result some_bytes short =
        let out = retain_buffer (set_id st.dataset_out ds.id) r in
        let found : retrieve_buffer st.files out ≡ ok r =
          found_buffer st.files out r refl (not_empty r some_bytes) in
        let (calls, e) =
          push_dataset-frame asio whole st.files out r st.index st.output found short in
        (out, calls, rw (same, result, sockets, e) refl)

    pub work-frames :
        (fuel calls : ℕ) (sent results : List (ℕ × List ℕ)) (rest : List ℕ) (st : State)
        → AreFrames sent
        → AreFrames results
        → AreProduced st.product sent results
        → st.output_id ≡ none
        → st.input ≡ record { bytes = frames sent ++ rest; calls = calls }
        → length sent < fuel
        → (st' : State) × (socket_work asio fuel st ≡ some (ok st'))
          × (st'.output.bytes ≡ st.output.bytes ++ frames results)
          × (st'.input.bytes ≡ rest)
    unfolding work push_end_signal
    work-frames zero calls sent results rest st fit fit' made sockets input enough =
        absurd (omega arith)
    work-frames (suc fuel) calls [] (r ∷ results) rest st fit fit' made sockets input enough =
        absurd made
    work-frames (suc fuel) calls (b ∷ sent) [] rest st fit fit' made sockets input enough =
        absurd made
    work-frames (suc fuel) calls [] [] rest st fit fit' made sockets input enough = (
      record st {
        index = u32_max;
        input = record { bytes = rest; calls = calls + 1 };
        output = push_end_signal asio st.output;
      },
      rw (input, pull_dataset-end asio whole st.index st.dataset_in rest calls) refl,
      ap (λ (s : Socket). s.bytes) (send_lem asio whole (u32_bytes u32_max) st.output),
      refl,
    )
    work-frames (suc fuel) calls ((i, b) ∷ sent) ((j, r) ∷ results) rest st fit fit' made sockets
          input enough =
        let (calls', pulled) =
          pull_dataset-frame asio whole laws st.index i st.dataset_in b (frames sent ++ rest) calls
            fit.0 fit.1 in
        let ds = fill_dataset st.dataset_in i b in
        let st1 : State = record st {
          dataset_in = some ds;
          index = i;
          input = record { bytes = frames sent ++ rest; calls = calls' };
        } in
        let (c', result, more) = made.2 in
        let (out, calls'', worked) =
          work_on-frame st1 ds b r c' (fill_dataset-buffer st.dataset_in i b) sockets result made.1
            fit'.1 in
        let (st', done, sent_bytes, left) =
          work-frames fuel calls' sent results rest
            (record st1 {
              dataset_out = out;
              product = c';
              output = record { bytes = st.output.bytes ++ frame i r; calls = calls'' };
            })
            fit.2 fit'.2 more sockets refl (omega arith) in
        (
          st',
          rw
              (
                input,
                append_assoc (frame i b) (frames sent) rest,
                pulled,
                ne→== i u32_max (omega (arith, fit.0)),
                worked,
              )
              done,
          sent_bytes ∙ rw made.0 (append_assoc st.output.bytes (frame i r) (frames results)),
          left,
        )

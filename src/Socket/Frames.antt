-- ===== src/Socket/Frames.antt =====
-- One frame: what PushDataset of a supplier sends, PullDataset of an aggregator receives.
use compute_web_app.Prelude.{
  ℕ, ◌+◌, ◌%◌, ◌<◌, ◌≡◌, refl, ap, ◌∙◌, List, ◌++◌, Option, some, length, arith, append_assoc,
  take_all, ne→==,
}
use compute_web_app.Prelude.Words.{u32_mod, u32_max, u32_bytes, u32_of_bytes-u32_bytes}
use compute_web_app.Outcome.{ok}
use compute_web_app.Dataset.{Files, Dataset, get_size, retrieve_buffer}
use compute_web_app.Dataset.Buffers.{get_size-retrieve_buffer, size_of}
use compute_web_app.Socket.{
  Asio, IsAsio, NoShortCall, Socket, send, receive, receive_u32, push_dataset, pull_dataset,
  fill_dataset,
}
use compute_web_app.Socket.Receive.{receive_all_exact}

abbrev pub frame : ℕ → List ℕ → List ℕ
frame id buffer = u32_bytes id ++ (u32_bytes (length buffer) ++ buffer)

module _ (asio : Asio) (whole : NoShortCall asio) where
  pub receive_u32-u32_bytes :
      (old n : ℕ) (rest : List ℕ) (calls : ℕ)
      → n < u32_mod
      → receive_u32 asio old (record { bytes = u32_bytes n ++ rest; calls = calls })
        ≡ ok (n, record { bytes = rest; calls = calls + 1 })
  unfolding receive_u32 receive u32_bytes
  receive_u32-u32_bytes old n rest calls h =
      rw
        (
          whole.received_header calls (length (u32_bytes n ++ rest)) (omega arith),
          u32_of_bytes-u32_bytes n h,
        )
        refl

  pub send_lem :
      (buffer : List ℕ) (s : Socket)
      → send asio buffer s ≡ record { bytes = s.bytes ++ buffer; calls = s.calls + 1 }
  unfolding send
  send_lem buffer s =
      rw (whole.sent_all s.calls (length buffer), take_all (length buffer) buffer (omega arith))

  -- In a run without a short call, a dataset whose buffer is retrieved and is shorter
  -- than 2^32 bytes is sent as one frame, behind what was sent before: its index, the length and
  -- the buffer.
  pub push_dataset-frame :
      (fs : Files) (ds : Dataset) (buffer : List ℕ) (id : ℕ) (s : Socket)
      → retrieve_buffer fs ds ≡ ok buffer
      → length buffer < u32_mod
      → (calls : ℕ) × (push_dataset asio fs ds id s
          ≡ ok (record { bytes = s.bytes ++ frame id buffer; calls = calls }))
  unfolding push_dataset
  push_dataset-frame fs ds buffer id s h k =
      let size : get_size fs ds ≡ ok (length buffer) =
        get_size-retrieve_buffer fs ds ∙ ap size_of h in
      let small : length buffer % u32_mod ≡ length buffer = omega arith in
      (s.calls + 1 + 1 + 1, rw (size, h, small) (simp (send_lem, append_assoc)))

  -- In a run without a short call, where `receive` behaves as documented, a frame with an index below
  -- 2^32 - 1 and a buffer shorter than 2^32 bytes is received: the dataset gets the id
  -- `dataset_<index>` and the frame's bytes, and what follows the frame is left.
  pub pull_dataset-frame :
      IsAsio asio
      → (old id : ℕ) (target : Option Dataset) (buffer rest : List ℕ) (calls : ℕ) → id < u32_max
      → length buffer < u32_mod
      → (calls' : ℕ) × (pull_dataset asio old target
            (record { bytes = frame id buffer ++ rest; calls = calls })
          ≡ some (
              ok (
                some (fill_dataset target id buffer),
                id,
                record { bytes = rest; calls = calls' },
              )))
  unfolding pull_dataset
  pull_dataset-frame laws old id target buffer rest calls h k =
      let (calls', e) = receive_all_exact asio laws buffer rest (calls + 1 + 1) in
      (
        calls',
        rw
            (
              append_assoc (u32_bytes id) (u32_bytes (length buffer) ++ buffer) rest,
              append_assoc (u32_bytes (length buffer)) buffer rest,
              receive_u32-u32_bytes old id (u32_bytes (length buffer) ++ (buffer ++ rest)) calls
                  (omega arith),
              ne→== id u32_max (omega arith),
              receive_u32-u32_bytes u32_max (length buffer) (buffer ++ rest) (calls + 1) k,
              e,
            )
            refl,
      )

  -- In a run without a short call, the end signal is received as the index `uint32_t(-1)`,
  -- and the dataset is left as it was.
  pub pull_dataset-end :
      (old : ℕ) (target : Option Dataset) (rest : List ℕ) (calls : ℕ)
      → pull_dataset asio old target (record { bytes = u32_bytes u32_max ++ rest; calls = calls })
        ≡ some (ok (target, u32_max, record { bytes = rest; calls = calls + 1 }))
  unfolding pull_dataset
  pull_dataset-end old target rest calls =
      rw (receive_u32-u32_bytes old u32_max rest calls (omega arith))

-- ===== src/Socket/Receive.antt =====
-- The receiving loop: whatever the sizes in which the bytes arrive, it ends, with all of them.
use native.Mathlib.Decide.{dec_lt}
use compute_web_app.Prelude.{
  not_empty, length-append, take-append, drop-append, take_all, drop_all, take_split, drop_split, ℕ,
  zero, suc, ◌+◌, ◌-◌, ◌≤◌, ◌<◌, ◌≡◌, refl, ap, ◌∙◌, List, [], ◌++◌, Option, some, length, take,
  drop, arith, append-nil, append_assoc, length-take, length-drop,
}
use compute_web_app.Outcome.{Outcome, ok, raise, socket_error}
use compute_web_app.Socket.{Asio, IsAsio, Socket, receive, receive_all}

module _ (asio : Asio) (laws : IsAsio asio) where
  abbrev delivered : ℕ → Socket → ℕ
  delivered room s = asio.received s.calls room (length s.bytes)

  abbrev rest : ℕ → Socket → Socket
  rest n s = record { bytes = drop n s.bytes; calls = s.calls + 1 }

  receive_some :
      (room : ℕ) (s : Socket)
      → 0 < length s.bytes
      → receive asio room s ≡ ok (take (delivered room s) s.bytes, rest (delivered room s) s)
  unfolding receive
  receive_some room s h = rw (not_empty s.bytes h)

  receive_none :
      (room : ℕ) (s : Socket) → length s.bytes ≡ 0 → receive asio room s ≡ raise socket_error
  unfolding receive
  receive_none room s h = ground arith

  -- Where `receive` behaves as documented and at least `room` bytes arrive, the loop with fuel
  -- above `room` ends with the `room` bytes that stand first, behind those that it had, and leaves
  -- the others to be received.
  pub receive_all_enough :
      (fuel room : ℕ) (got : List ℕ) (s : Socket)
      → room < fuel
      → room ≤ length s.bytes
      → (calls : ℕ) × (receive_all asio fuel room got s
          ≡ some
              (ok (got ++ take room s.bytes, record { bytes = drop room s.bytes; calls = calls })))
  unfolding receive_all
  receive_all_enough zero room got s h k = absurd (omega arith)
  receive_all_enough (suc fuel) zero got s h k = (s.calls, rw append-nil)
  receive_all_enough (suc fuel) (suc room) got s h k =
      let n = delivered (suc room) s in
      let more = take n s.bytes in
      let left = suc room - length more in
      let n_pos : 0 < n =
        laws.received_pos s.calls (suc room) (length s.bytes) (omega arith) (omega arith) in
      let n_room : n ≤ suc room = laws.received_le_room s.calls (suc room) (length s.bytes) in
      let n_some : n ≤ length s.bytes =
        laws.received_le_available s.calls (suc room) (length s.bytes) in
      let got_n : length more ≡ n = omega (arith, length-take n s.bytes) in
      let split : n + left ≡ suc room = omega arith in
      let (calls, e) =
        receive_all_enough fuel left (got ++ more) (rest n s) (omega arith)
          (omega (arith, length-drop n s.bytes)) in
      (
        calls,
        rw (receive_some (suc room) s (omega arith), receive_all)
            (e
              ∙ ap
                  (λ (bs : List ℕ).
                    some (ok (bs, record { bytes = drop left (drop n s.bytes); calls = calls })))
                  (append_assoc got more (take left (drop n s.bytes))
                    ∙ ap (◌++◌ got) (take_split n left (suc room) s.bytes split))
              ∙ ap
                  (λ (bs : List ℕ).
                    some
                      (ok (got ++ take (suc room) s.bytes, record { bytes = bs; calls = calls })))
                  (drop_split n left (suc room) s.bytes split)),
      )

  -- Where `receive` behaves as documented and fewer than `room` bytes arrive before the peer
  -- closes, the loop with fuel above `room` ends with an exception.
  pub receive_all_short :
      (fuel room : ℕ) (got : List ℕ) (s : Socket)
      → room < fuel
      → length s.bytes < room
      → receive_all asio fuel room got s ≡ some (raise socket_error)
  unfolding receive_all
  receive_all_short zero room got s h k = absurd (omega arith)
  receive_all_short (suc fuel) zero got s h k = absurd (omega arith)
  receive_all_short (suc fuel) (suc room) got s h k = elim (dec_lt 0 (length s.bytes)) [
    | yes some_left ↦
        let n = delivered (suc room) s in
        let n_pos : 0 < n =
          laws.received_pos s.calls (suc room) (length s.bytes) (omega arith) some_left in
        let n_some : n ≤ length s.bytes =
          laws.received_le_available s.calls (suc room) (length s.bytes) in
        let got_n : length (take n s.bytes) ≡ n = omega (arith, length-take n s.bytes) in
        rw (receive_some (suc room) s some_left, receive_all)
          (receive_all_short fuel _ _ (rest n s) (omega arith)
            (omega (arith, length-drop n s.bytes)))
    | no none_left ↦ rw (receive_none (suc room) s (omega arith), receive_all) refl
  ]

  -- The buffer that stands first is received, and what follows it is left.
  pub receive_all_exact :
      (buffer more : List ℕ) (calls : ℕ)
      → (calls' : ℕ) × (receive_all asio
            (suc (length buffer))
            (length buffer)
            []
            (record { bytes = buffer ++ more; calls = calls })
          ≡ some (ok (buffer, record { bytes = more; calls = calls' })))
  receive_all_exact buffer more calls =
      let (calls', e) =
        receive_all_enough (suc (length buffer)) (length buffer) []
          (record { bytes = buffer ++ more; calls = calls }) (omega arith)
          (omega (arith, length-append buffer more)) in
      (calls', e ∙ exactly calls')
    where
      exactly :
          (calls' : ℕ)
          → ◌≡◌ {A = Option (Outcome (List ℕ × Socket))}
              (some (
                ok (
                  take (length buffer) (buffer ++ more),
                  record { bytes = drop (length buffer) (buffer ++ more); calls = calls' },
                )))
              (some (ok (buffer, record { bytes = more; calls = calls' })))
      exactly calls' = rw (
        take-append (length buffer) buffer more (omega arith),
        take_all (length buffer) buffer (omega arith),
        drop-append (length buffer) buffer more (omega arith),
        drop_all (length buffer) buffer (omega arith),
      )

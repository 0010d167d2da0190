-- ===== src/Tests/Fixtures.antt =====
-- The concrete values that the tests share.
use compute_web_app.Prelude.{ℕ, refl, [], ◌∷◌, none, true, arith, if◌then◌else◌, ltb}
use compute_web_app.Prelude.Text.{codes}
use compute_web_app.Dataset.{Files, Dataset, Data, points}
use compute_web_app.Socket.{Asio, IsAsio, NoShortCall, Socket}

-- A disk with no file that takes any.
abbrev pub empty_disk : Files
empty_disk = record { contents = λ _. none; writable = λ _. true }

abbrev pub first_dataset : Dataset
first_dataset = record { id = codes "a"; owner = points (codes "in"); buffer = 1 ∷ 2 ∷ 3 ∷ [] }

abbrev pub second_dataset : Dataset
second_dataset = record { id = codes "b"; owner = points (codes "in"); buffer = 9 ∷ [] }

abbrev pub two_datasets : Data
two_datasets = record { id = codes "in"; datasets = first_dataset ∷ second_dataset ∷ [] }

-- A network that delivers what arrived into a room of at most four bytes, and one byte into a larger
-- room.
abbrev pub trickle : ℕ → ℕ → ℕ
trickle room available =
    if ltb 0 room
    then (if ltb 0 available
        then (if ltb 4 room then 1 else (if ltb room available then room else available))
        else 0)
    else 0

abbrev pub slow_asio : Asio
slow_asio = record { sent = λ k n. n; received = λ k room available. trickle room available }

pub slow_asio-IsAsio : IsAsio slow_asio
slow_asio-IsAsio = record {
  sent_le = λ k n. omega arith;
  received_le_room = λ k room available. ground arith;
  received_le_available = λ k room available. ground arith;
  received_pos = λ k room available h h'. ground arith;
}

pub slow_asio-NoShortCall : NoShortCall slow_asio
slow_asio-NoShortCall = record {
  sent_all = λ k n. refl;
  received_header = λ k available h. ground arith;
}

abbrev pub fresh_socket : Socket
fresh_socket = record { bytes = []; calls = 0 }

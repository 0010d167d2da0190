-- ===== src/Benchmark/Queues.antt =====
-- What arrives at an aggregator server from the workers at the clients of a supplier server.
use compute_web_app.Prelude.{
  ℕ, suc, ◌≤◌, ◌<◌, ◌≡◌, refl, sym, ap, ◌∙◌, List, [], ◌∷◌, ◌++◌, Option, none, some, length, arith,
  append-nil,
}
use compute_web_app.Prelude.Words.{u32_max}
use compute_web_app.Outcome.{Outcome, ok, raise, exits, fault}
use compute_web_app.Dataset.{Files, Dataset}
use compute_web_app.Supply.Supplier.{RunResult}
use compute_web_app.Socket.{Asio, IsAsio, NoShortCall, Socket, DatasetStruct, serve_client}
use compute_web_app.Socket.Stream.{frames, entries, AreFrames, serve_client-frames}
use compute_web_app.Socket.Dispatch.{ServerSupplier}
use compute_web_app.Socket.Dispatch.Appends.{Clients, Appends}
use compute_web_app.Socket.Dispatch.Shares.{AreBuffers, dealt}
use compute_web_app.Socket.Pull.{dealt-AreFrames, length-dealt}
use compute_web_app.Aggregate.Server.Workers.{queued_of}
use compute_web_app.Aggregate.Server.Senders.{Sender, entries_of}
use compute_web_app.Benchmark.{new_worker_state}
use compute_web_app.Benchmark.Round.{AreProduced, State, socket_work, work-frames}

-- Nothing was sent to these clients.
abbrev pub AllFresh : Clients → Type 0
AllFresh [] = Unit {0}
AllFresh ((a, s) ∷ cs) = (s.bytes ≡ []) × AllFresh cs

abbrev pub clients_after : Option (RunResult ServerSupplier) → Clients
clients_after none = []
clients_after (some r) = r.world.server.client_sockets

-- What the worker in each position sends to the aggregator server, where it is the client with the
-- id in that position.
abbrev pub senders_of : List ℕ → List (List (ℕ × List ℕ)) → List Sender
senders_of [] rss = []
senders_of (c ∷ ids) [] = []
senders_of (c ∷ ids) (rs ∷ rss) = (c, rs) ∷ senders_of ids rss

module _ {C : Type 0} (multiply : C → List ℕ → Outcome (List ℕ × C)) (product : C) where
  -- The results of the workers from position j on, of k: each computes those of its share.
  abbrev pub AllProduced : ℕ → List (List ℕ) → ℕ → List (List (ℕ × List ℕ)) → Type 0
  AllProduced k bs j [] = Unit {0}
  AllProduced k bs j (rs ∷ rss) =
      AreFrames rs × AreProduced multiply product (dealt k 0 bs j) rs × AllProduced k bs (suc j) rss

  AreProduced-length :
      (c : C) (sent results : List (ℕ × List ℕ))
      → AreProduced multiply c sent results
      → length results ≡ length sent
  AreProduced-length c [] [] h = refl
  AreProduced-length c [] (r ∷ results) h = absurd h
  AreProduced-length c (b ∷ sent) [] h = absurd h
  AreProduced-length c ((i, b) ∷ sent) ((j, r) ∷ results) h =
      ap suc (AreProduced-length h.2.0 sent results h.2.2)

  module _ (asio : Asio) (worker_files : Files) (work_fuel : ℕ) where
    abbrev queued_after : ℕ → Option (Outcome (State {C = C} multiply)) → List DatasetStruct
    queued_after client_id none = []
    queued_after client_id (some (ok st)) =
        queued_of (
          serve_client asio client_id work_fuel 0 0 (record { bytes = st.output.bytes; calls = 0 }))
    queued_after client_id (some (raise e)) = []
    queued_after client_id (some exits) = []
    queued_after client_id (some fault) = []

    -- What the aggregator server's thread queues for a worker that was sent the bytes of the socket.
    abbrev pub worker_queue : ℕ → Socket → List DatasetStruct
    worker_queue client_id s = queued_after client_id (
        socket_work multiply asio work_fuel (
          new_worker_state 0 product none worker_files (record { bytes = s.bytes; calls = 0 })
            (record { bytes = []; calls = 0 })))

    abbrev pub worker_queues : Clients → List ℕ → List (List DatasetStruct)
    worker_queues [] ids = []
    worker_queues ((a, s) ∷ cs) [] = []
    worker_queues ((a, s) ∷ cs) (c ∷ ids) = worker_queue c s ∷ worker_queues cs ids

    worker_queue-entries :
        IsAsio asio
        → NoShortCall asio
        → (client_id : ℕ) (s : Socket) (sent results : List (ℕ × List ℕ)) → AreFrames sent
        → AreFrames results
        → AreProduced multiply product sent results
        → length sent < work_fuel
        → s.bytes ≡ frames sent
        → worker_queue client_id s ≡ entries client_id results
    worker_queue-entries laws whole client_id s sent results fit fit' made enough bytes =
        let start : State {C = C} multiply =
          new_worker_state 0 product none worker_files (record { bytes = s.bytes; calls = 0 })
            (record { bytes = []; calls = 0 }) in
        let (st', done, output, _) =
          work-frames multiply asio laws whole work_fuel 0 sent results [] start fit fit' made refl
            (ap (λ (b : List ℕ). record { bytes = b; calls = 0 })
              (bytes ∙ sym (append-nil (frames sent))))
            enough in
        let served =
          serve_client-frames asio laws whole client_id work_fuel 0 0 0 results [] fit'
            (omega (arith, AreProduced-length product sent results made)) in
        rw (done, output ∙ sym (append-nil (frames results)), served) refl

    pub worker_queues-entries :
        IsAsio asio
        → NoShortCall asio
        → (source_files : Files) (dss : List Dataset) (bs : List (List ℕ)) (k j : ℕ)
          (cs cs' : Clients) (ids : List ℕ) (rss : List (List (ℕ × List ℕ)))
        → AreBuffers source_files dss bs
        → length bs ≤ u32_max
        → length bs < work_fuel
        → AllFresh cs
        → Appends (λ j. frames (dealt k 0 bs j)) j cs cs'
        → AllProduced k bs j rss
        → length ids ≡ length cs
        → length rss ≡ length cs
        → worker_queues cs' ids ≡ entries_of (senders_of ids rss)
    worker_queues-entries laws whole source_files dss bs k j [] [] [] rss found fit enough fresh
          sent made n m =
        refl
    worker_queues-entries laws whole source_files dss bs k j [] [] (c ∷ ids) rss found fit enough
          fresh sent made n m =
        absurd (omega arith)
    worker_queues-entries laws whole source_files dss bs k j [] (c' ∷ cs') ids rss found fit enough
          fresh sent made n m =
        absurd sent
    worker_queues-entries laws whole source_files dss bs k j (c ∷ cs) [] ids rss found fit enough
          fresh sent made n m =
        absurd sent
    worker_queues-entries laws whole source_files dss bs k j (c ∷ cs) (c' ∷ cs') [] rss found fit
          enough fresh sent made n m =
        absurd (omega arith)
    worker_queues-entries laws whole source_files dss bs k j (c ∷ cs) (c' ∷ cs') (i ∷ ids) [] found
          fit enough fresh sent made n m =
        absurd (omega arith)
    worker_queues-entries laws whole source_files dss bs k j ((a, s) ∷ cs) ((a', s') ∷ cs')
          (i ∷ ids) (rs ∷ rss) found fit enough fresh sent made n m =
        let share = dealt k 0 bs j in
        let first =
          worker_queue-entries laws whole i s' share rs
            (dealt-AreFrames source_files dss k 0 bs j found (omega arith)) made.0 made.1
            (omega (arith, length-dealt k 0 bs j))
            (sent.1 ∙ ap (λ (b : List ℕ). b ++ frames share) fresh.0) in
        let others =
          worker_queues-entries laws whole source_files dss bs k (suc j) cs cs' ids rss found fit
            enough fresh.1 sent.2 made.2 (omega arith) (omega arith) in
        rw (first, others) refl

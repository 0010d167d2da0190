-- ===== src/Benchmark/Ring.antt =====
-- The whole ring: a supplier server, the workers at its clients, and an aggregator server.
use compute_web_app.Prelude.{ℕ, ◌≤◌, ◌<◌, ◌≡◌, List, some, length}
use compute_web_app.Prelude.Words.{u32_mod, u32_max}
use compute_web_app.Outcome.{Outcome, ok}
use compute_web_app.Dataset.{Files, Dataset, Data}
use compute_web_app.Supply.{DataSupplyState, new_supply_state}
use compute_web_app.Supply.Supplier.{RunResult}
use compute_web_app.Supply.Supplier
use compute_web_app.Socket.{Asio, IsAsio, NoShortCall}
use compute_web_app.Socket.Server.{client_ids}
use compute_web_app.Socket.Server.Registration.{Rise}
use compute_web_app.Socket.Dispatch.{ServerSupplier, server_supplier}
use compute_web_app.Socket.Dispatch.Shares.{AreBuffers, run-share}
use compute_web_app.Aggregate
use compute_web_app.Aggregate.Server.Senders.{entries_of}
use compute_web_app.Benchmark.Queues.{
  AllFresh, clients_after, senders_of, AllProduced, worker_queues, worker_queues-entries,
}

module _ {C : Type 0} (multiply : C → List ℕ → Outcome (List ℕ × C)) where
  -- What the workers send, as the aggregator's threads queue it.
  pub ring-entries :
      (product : C) (asio : Asio)
      → IsAsio asio
      → NoShortCall asio
      → (fs worker_files : Files) (source : Data) (bs : List (List ℕ)) (s : DataSupplyState)
        (fuel work_fuel hi : ℕ) (st : ServerSupplier) (rss : List (List (ℕ × List ℕ)))
        (ids : List ℕ)
      → AreBuffers fs source.datasets bs
      → Rise 0 hi (client_ids st.server.client_sockets)
      → AllFresh st.server.client_sockets
      → 0 < length st.server.client_sockets
      → length bs ≤ u32_max
      → length bs < work_fuel
      → length source.datasets < u32_mod
      → length source.datasets < fuel
      → new_supply_state fuel source ≡ some s
      → AllProduced multiply product (length st.server.client_sockets) bs 0 rss
      → length rss ≡ length st.server.client_sockets
      → length ids ≡ length st.server.client_sockets
      → (r : RunResult ServerSupplier) × (Supplier.run (server_supplier asio fs) fuel st s 0
          ≡ some r)
        × (r.outcome ≡ ok tt)
        × (worker_queues multiply product asio worker_files work_fuel
              (clients_after (Supplier.run (server_supplier asio fs) fuel st s 0))
              ids
            ≡ entries_of (senders_of ids rss))
  ring-entries product asio laws whole fs worker_files source bs s fuel work_fuel hi st rss ids
        found rise fresh some_client fit work_enough small enough made results n m =
      let (r, ran, outcome, stopped, appends) =
        run-share asio fs whole source bs s fuel hi st found rise some_client small enough made in
      (
        r,
        ran,
        outcome,
        rw ran (
            worker_queues-entries multiply product asio worker_files work_fuel laws whole fs
              source.datasets bs (length st.server.client_sockets) 0 st.server.client_sockets
              r.world.server.client_sockets ids rss found fit work_enough fresh appends results m
              n),
      )

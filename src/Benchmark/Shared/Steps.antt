-- ===== src/Benchmark/Shared/Steps.antt =====
-- A step of one of several workers that share two exchange files.
mod Pulls
mod Works
use compute_web_app.Prelude.{
  ℕ, suc, ◌+◌, ◌*◌, ◌≤◌, ◌<◌, ◌≡◌, ◌≢◌, refl, ap, ◌∙◌, ◌⊎◌, inl, inr, ◌↔◌, List, [], ◌∷◌, ◌++◌,
  some, true, false, length, length-append, count, range_from, arith, ◌==◌, ne→==, ==_iff, ==_refl,
  Bool-cases, if◌then◌else◌,
}
use compute_web_app.Prelude.Words.{u32_max}
use compute_web_app.Prelude.Text.{Text, text_eq, codes, to_text}
use compute_web_app.Outcome.{Outcome, ok}
use compute_web_app.Dataset.{
  Files, Dataset, set_id, retain_buffer, set_data, points, release_buffer, get_filename, write_file,
  DataPointer,
}
use compute_web_app.Benchmark.{WorkerState}
use compute_web_app.Aggregate.File.{end_signals}
use compute_web_app.Exchange.Library.{Json, IsJson}
use compute_web_app.Exchange.{Entry, ExchangeFile, lock_file, unlock_file}
use compute_web_app.Exchange.Transfer.{allocated, handle_end_as_client}
use compute_web_app.Exchange.Transfer.Carried.{
  Shows-lock, Shows-unlock, pull_from_file-Shows, pull_from_file-end,
}
use compute_web_app.Exchange.Clients.{Serves}
use compute_web_app.Exchange.Clients.Pushes.{push_as_client-Serves, push_end_as_client-Serves}
use compute_web_app.Benchmark.{work_on, keep_result}
use compute_web_app.Benchmark.Shared.Written.{
  entry_ids-data, entry_ids-end, end_signals-data, end_signals-end, AreInputs-write,
  AreOutputs-write, AreOutputs-last, written-IsOutput,
}
use compute_web_app.Benchmark.Shared.{
  state_of, file_aggregator, file_supplier, Phase, pulling, working, ending, finished, crashed,
  Worker, Shared, act, after_pull, after_work, after_end,
}
use compute_web_app.Benchmark.Shared.Names.{dataset_name, output_file}
use compute_web_app.Benchmark.Shared.Invariant.{
  entry_ids, end_entry, left_in, held, IsJob, AreInputs, AreOutputs, WorkerInv, SharedInv, Moves,
}
use compute_web_app.Benchmark.Shared.Steps.Pulls.{ActsWell, act-ends, act-pulls}
use compute_web_app.Benchmark.Shared.Steps.Works.{act-works}

module _ {J C P : Type 0} (json : Json J C) (laws : IsJson json)
    (multiply : P → List ℕ → Outcome (List ℕ × P)) (n : ℕ) (ids : List ℕ) (bytes_at : ℕ → List ℕ)
    (IsReady : P → Type 0) (IsResult : ℕ → List ℕ → Type 0) where
  abbrev OfWorker : List Entry → List Entry → ℕ → Worker P → Type 0
  OfWorker = WorkerInv n ids bytes_at IsReady IsResult

  abbrev OfShared : Shared C → List Entry → List Entry → Type 0
  OfShared = SharedInv n ids bytes_at IsReady IsResult json laws

  abbrev Acts : List Entry → List Entry → ℕ → Worker P → Shared C → Type 0
  Acts = ActsWell json laws multiply n ids bytes_at IsReady IsResult

  module _ (sent : List Entry) (k : ℕ) (w : Worker P) (s : Shared C) where
    -- The end signal of the worker is pushed.
    act-closes :
        (waiting : List Entry)
        → w.phase ≡ ending
        → k < n
        → OfShared s waiting sent
        → OfWorker waiting sent k w
        → Acts waiting sent k w s
    unfolding act after_end
    act-closes waiting at inside shared worker =
        let nothing_left : waiting ≡ [] = rw at at worker.holds in
        let (output', pushed, _, serves') =
          push_end_as_client-Serves json laws s.output sent (range_from 1 n) [] shared.serves
            w.client_id in
        let e = end_entry w.client_id in
        let w' : Worker P = record w { phase = finished } in
        let mine = worker.client in
        (
          w',
          record s { output = output' },
          rw (at, pushed) refl,
          record {
            waiting' = waiting;
            sent' = sent ++ e ∷ [];
            shared = record {
              last = shared.last;
              last_ends = shared.last_ends;
              shows = shared.shows;
              inputs = shared.inputs;
              serves = serves';
              outputs =
                  AreOutputs-last n ids bytes_at IsReady IsResult s.files sent e shared.outputs
                    (inl (refl, omega arith, omega arith));
              writable = shared.writable;
            };
            worker = record {
              client = mine;
              ready = worker.ready;
              holds = nothing_left;
              ended = (λ q. ground (arith, end_signals-end (suc k) sent e refl), λ q. refl);
            };
            conserved = λ i. rw at (omega (arith, entry_ids-end i sent e refl));
            paced = rw at (omega (arith, length-append sent (e ∷ [])));
            less = inr (rw at (omega arith), λ q. cc);
            empty = λ q. q;
            others = λ j ne. ground (arith, end_signals-end (suc j) sent e refl);
            closes = λ q. inr (λ r. cc, rw mine refl);
          },
        )

    -- A step of a worker, where no other has sent what it holds.
    pub act-Moves :
        (waiting : List Entry)
        → IsJob multiply ids bytes_at IsReady IsResult
        → k < n
        → OfShared s waiting sent
        → OfWorker waiting sent k w
        → (w.phase ≡ working → count w.index (entry_ids sent) ≡ 0)
        → ActsWell json laws multiply n ids bytes_at IsReady IsResult waiting sent k w s
    unfolding act
    act-Moves waiting job inside shared worker fresh = by_phase w.phase refl
      where
        pull :
            (waiting : List Entry)
            → w.phase ≡ pulling
            → OfShared s waiting sent
            → OfWorker waiting sent k w
            → Acts waiting sent k w s
        pull [] at shared worker =
            act-ends json laws multiply n ids bytes_at IsReady IsResult sent k w s at shared worker
        pull (e ∷ waiting) at shared worker =
            act-pulls json laws multiply n ids bytes_at IsReady IsResult sent k w s e waiting at
              shared worker

        by_phase : (ph : Phase) → w.phase ≡ ph → Acts waiting sent k w s
        by_phase pulling at = pull waiting at shared worker
        by_phase working at =
            act-works json laws multiply n ids bytes_at IsReady IsResult sent k w s waiting job at
              shared worker (fresh at)
        by_phase ending at = act-closes waiting at inside shared worker
        by_phase crashed at = absurd (rw at at worker.holds)
        by_phase finished at = (
          w,
          s,
          rw at refl,
          record {
            waiting' = waiting;
            sent' = sent;
            shared = shared;
            worker = worker;
            conserved = λ i. refl;
            paced = refl;
            less = inl (refl, refl, at);
            empty = λ q. q;
            others = λ j ne. refl;
            closes = λ q. inl (at, refl);
          },
        )

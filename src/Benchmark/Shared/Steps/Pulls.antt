-- ===== src/Benchmark/Shared/Steps/Pulls.antt =====
-- A worker that shares two exchange files pulls.
use compute_web_app.Prelude.{ℕ, ◌≡◌, refl, inr, List, [], ◌∷◌, ◌++◌, some, arith, ne→==}
use compute_web_app.Prelude.Words.{u32_max}
use compute_web_app.Prelude.Text.{to_text}
use compute_web_app.Outcome.{Outcome}
use compute_web_app.Dataset.{Dataset, set_id, retain_buffer}
use compute_web_app.Exchange.Library.{Json, IsJson}
use compute_web_app.Exchange.{Entry, lock_file, unlock_file}
use compute_web_app.Exchange.Transfer.{allocated, handle_end_as_client}
use compute_web_app.Exchange.Transfer.Carried.{
  Shows-lock, Shows-unlock, pull_from_file-Shows, pull_from_file-end,
}
use compute_web_app.Benchmark.Shared.{pulling, working, ending, Worker, Shared, act, after_pull}
use compute_web_app.Benchmark.Shared.Names.{dataset_name}
use compute_web_app.Benchmark.Shared.Invariant.{WorkerInv, SharedInv, Moves}

module _ {J C P : Type 0} (json : Json J C) (laws : IsJson json)
    (multiply : P → List ℕ → Outcome (List ℕ × P)) (n : ℕ) (ids : List ℕ) (bytes_at : ℕ → List ℕ)
    (IsReady : P → Type 0) (IsResult : ℕ → List ℕ → Type 0) where
  abbrev pub OfWorker : List Entry → List Entry → ℕ → Worker P → Type 0
  OfWorker = WorkerInv n ids bytes_at IsReady IsResult

  abbrev pub OfShared : Shared C → List Entry → List Entry → Type 0
  OfShared = SharedInv n ids bytes_at IsReady IsResult json laws

  -- A worker steps.
  abbrev pub ActsWell : List Entry → List Entry → ℕ → Worker P → Shared C → Type 0
  ActsWell waiting sent k w s =
      (w' : Worker P) × (s' : Shared C) × (act json multiply w s ≡ (w', s'))
      × Moves n ids bytes_at IsReady IsResult json laws waiting sent k w w' s'

  module _ (sent : List Entry) (k : ℕ) (w : Worker P) (s : Shared C) where
    -- The end signal of the supplier is met.
    pub act-ends :
        w.phase ≡ pulling → OfShared s [] sent → OfWorker [] sent k w → ActsWell [] sent k w s
    unfolding act after_pull lock_file handle_end_as_client
    act-ends at shared worker =
        let input' = unlock_file (lock_file s.input) in
        let w' : Worker P = record w { phase = ending; index = u32_max } in
        (
          w',
          record s { input = input' },
          rw
              (
                at,
                pull_from_file-end json laws s.files w.dataset_in s.input shared.last []
                    shared.last_ends shared.shows,
                after_pull,
                shared.last_ends,
              )
              refl,
          record {
            waiting' = [];
            sent' = sent;
            shared = record {
              last = shared.last;
              last_ends = shared.last_ends;
              shows =
                  Shows-unlock json laws (lock_file s.input) (shared.last ∷ [])
                    (Shows-lock json laws s.input (shared.last ∷ []) shared.shows);
              inputs = tt;
              serves = shared.serves;
              outputs = shared.outputs;
              writable = shared.writable;
            };
            worker = record {
              client = worker.client;
              ready = worker.ready;
              holds = refl;
              ended = (λ e. cc, λ h. absurd (ground (arith, worker.ended.1 h)));
            };
            conserved = λ i. rw at refl;
            paced = rw at (omega arith);
            less = inr (rw at (omega arith), λ e. cc);
            empty = λ e. e;
            others = λ j ne. refl;
            closes = λ e. cc;
          },
        )

    -- A dataset is pulled.
    pub act-pulls :
        (e : Entry) (waiting : List Entry)
        → w.phase ≡ pulling
        → OfShared s (e ∷ waiting) sent
        → OfWorker (e ∷ waiting) sent k w
        → ActsWell (e ∷ waiting) sent k w s
    unfolding act after_pull set_id retain_buffer to_text
    act-pulls e waiting at shared worker =
        let (other, known, stands, apart) = shared.inputs.0 in
        let (input', pulled, _, shows') =
          pull_from_file-Shows json laws s.files w.dataset_in s.input e
            (waiting ++ shared.last ∷ []) (bytes_at e.id) other stands shared.shows in
        let ds : Dataset =
          set_id (retain_buffer (allocated w.dataset_in) (bytes_at e.id)) (dataset_name e.id) in
        let w' : Worker P = record w { phase = working; dataset_in = some ds; index = e.id } in
        (
          w',
          record s { input = input' },
          rw (at, pulled, after_pull, ne→== e.id u32_max other) refl,
          record {
            waiting' = waiting;
            sent' = sent;
            shared = record {
              last = shared.last;
              last_ends = shared.last_ends;
              shows = shows';
              inputs = shared.inputs.1;
              serves = shared.serves;
              outputs = shared.outputs;
              writable = shared.writable;
            };
            worker = record {
              client = worker.client;
              ready = worker.ready;
              holds = (other, known, ((allocated w.dataset_in).owner, refl));
              ended = (λ e. cc, λ h. absurd (ground (arith, worker.ended.1 h)));
            };
            conserved = λ i. rw (at, ne→== e.id u32_max other) (omega arith);
            paced = rw at (omega arith);
            less = inr (rw at (omega arith), λ e. cc);
            empty = λ none_left. cc;
            others = λ j ne. refl;
            closes = λ e. cc;
          },
        )

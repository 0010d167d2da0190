-- ===== src/Benchmark/Shared/Start.antt =====
-- Workers at their start, and that they end under a fair schedule.
use compute_web_app.Prelude.{
  ℕ, zero, suc, ◌+◌, ◌*◌, ◌<◌, ◌≡◌, ◌≢◌, refl, ap, ◌∙◌, ◌⊎◌, inl, inr, List, [], ◌∷◌, ◌++◌, some,
  length, get_elem?, sum_over, get_elem?-set, get_elem?-lt, get_elem?-total, arith, range_from,
  ne→==, true, Option-cases,
}
use compute_web_app.Prelude.Words.{u32_max}
use compute_web_app.Outcome.{Outcome}
use compute_web_app.Dataset.{Files}
use compute_web_app.Exchange.Library.{Json, IsJson}
use compute_web_app.Exchange.{Entry, ExchangeFile}
use compute_web_app.Exchange.Queue.{Shows}
use compute_web_app.Exchange.Clients.{Serves}
use compute_web_app.Benchmark.Shared.Names.{output_file}
use compute_web_app.Schedules.{Works}
use compute_web_app.Benchmark.Shared.{
  Phase, pulling, working, ending, finished, crashed, Worker, Workers, new_worker, act_at, step,
}
use compute_web_app.Benchmark.Shared.Invariant.{
  entry_ids, left_in, unsent_in, held, IsJob, AreInputs,
}
use compute_web_app.Benchmark.Shared.All.{AllFinished, WorkersInv, Running, step-WorkersInv}

-- The clients `client_id` and on, each with its product.
abbrev pub start_workers : {P : Type 0} → ℕ → ℕ → List P → List (Worker P)
start_workers client_id index [] = []
start_workers client_id index (product ∷ products) =
    new_worker client_id index product ∷ start_workers (suc client_id) index products

abbrev pub start :
    {C P : Type 0} → ExchangeFile C → ExchangeFile C → Files → ℕ → List P → Workers C P
start input output fs index products = record {
  shared = record { input = input; output = output; files = fs };
  workers = start_workers 1 index products;
}

abbrev pub AllReady : {P : Type 0} → (P → Type 0) → List P → Type 0
AllReady IsReady [] = Unit {0}
AllReady IsReady (product ∷ products) = IsReady product × AllReady IsReady products

phase_cases : (ph : Phase) → (ph ≡ finished) ⊎ (ph ≢ finished)
phase_cases finished = inl refl
phase_cases pulling = inr (λ e. cc)
phase_cases working = inr (λ e. cc)
phase_cases ending = inr (λ e. cc)
phase_cases crashed = inr (λ e. cc)

running_or_finished :
    {P : Type 0} (ws : List (Worker P))
    → AllFinished ws ⊎ ((k : ℕ) × (w : Worker P) × (get_elem? ws k ≡ some w) × (w.phase ≢ finished))
running_or_finished [] = inl (λ k w at. cc)
running_or_finished {P} (v ∷ ws) = elim (phase_cases v.phase) [
  | inr running ↦ inr (0, v, refl, running)
  | inl ended ↦ elim (running_or_finished ws) [
    | inl others ↦ inl (all_finished ended others)
    | inr (k, w, at, running) ↦ inr (suc k, w, at, running)
  ]
]
  where
    all_finished : v.phase ≡ finished → AllFinished ws → AllFinished (v ∷ ws)
    all_finished ended others zero w at = let e : v ≡ w = cc in rw e at ended
    all_finished ended others (suc k) w at = others k w at

pub finished_sum :
    {P : Type 0} (weight : Worker P → ℕ) (ws : List (Worker P))
    → ((w : Worker P) → w.phase ≡ finished → weight w ≡ 0)
    → AllFinished ws
    → sum_over weight ws ≡ 0
finished_sum weight [] weightless h = refl
finished_sum weight (w ∷ ws) weightless h =
    omega (arith, weightless w (h 0 w refl), finished_sum weight ws weightless (λ k. h (suc k)))

module _ {P : Type 0} (index : ℕ) (IsReady : P → Type 0) where
  length-start_workers : (i : ℕ) (ps : List P) → length (start_workers i index ps) ≡ length ps
  length-start_workers i [] = refl
  length-start_workers i (p ∷ ps) = ap suc (length-start_workers (suc i) ps)

  start_workers-left :
      (i : ℕ) (ps : List P)
      → sum_over (λ w. left_in w.phase) (start_workers i index ps) ≡ 2 * length ps
  start_workers-left i [] = refl
  start_workers-left i (p ∷ ps) = omega (arith, start_workers-left (suc i) ps)

  start_workers-unsent :
      (i : ℕ) (ps : List P)
      → sum_over (λ w. unsent_in w.phase) (start_workers i index ps) ≡ length ps
  start_workers-unsent i [] = refl
  start_workers-unsent i (p ∷ ps) = omega (arith, start_workers-unsent (suc i) ps)

  start_workers-held : (i j : ℕ) (ps : List P) → sum_over (held j) (start_workers i index ps) ≡ 0
  start_workers-held i j [] = refl
  start_workers-held i j (p ∷ ps) = omega (arith, start_workers-held (suc i) j ps)

  start_workers-get :
      (i k : ℕ) (ps : List P) (w : Worker P)
      → AllReady IsReady ps
      → get_elem? (start_workers i index ps) k ≡ some w
      → (w.phase ≡ pulling) × (w.client_id ≡ i + k) × IsReady w.product
  start_workers-get i k [] w ready at = cc
  start_workers-get i zero (p ∷ ps) w ready at =
      let e : new_worker i index p ≡ w = cc in
      let same : i ≡ i + 0 = omega arith in (rw (← e) refl, rw (← e) same, rw (← e) ready.0)
  start_workers-get i (suc k) (p ∷ ps) w ready at =
      let (phase, client, is_ready) = start_workers-get (suc i) k ps w ready.1 at in
      (phase, omega arith, is_ready)

module _ {J C P : Type 0} (json : Json J C) (laws : IsJson json)
    (multiply : P → List ℕ → Outcome (List ℕ × P)) (n : ℕ) (ids : List ℕ) (bytes_at : ℕ → List ℕ)
    (IsReady : P → Type 0) (IsResult : ℕ → List ℕ → Type 0)
    (job : IsJob multiply ids bytes_at IsReady IsResult) where
  abbrev pub Inv : ℕ → Workers C P → Type 0
  Inv = WorkersInv json laws multiply n ids bytes_at IsReady IsResult

  step-other :
      (r : Workers C P) (j k : ℕ)
      → j ≢ k
      → get_elem? (step json multiply r j).workers k ≡ get_elem? r.workers k
  unfolding step
  step-other r j k ne = elim (Option-cases (get_elem? r.workers j)) [
    | inl missing ↦ rw (missing, act_at) refl
    | inr (w, at) ↦ rw (at, act_at) (get_elem?-set r.workers j k _ ne)
  ]

  -- Once all workers have finished nothing is left to do.
  finished-left : (m : ℕ) (r : Workers C P) → 0 < n → Inv m r → AllFinished r.workers → m ≡ 0
  finished-left m r some_worker inv done =
      let (w, at) = get_elem?-total r.workers 0 (omega (arith, inv.size)) in
      let nothing : inv.waiting ≡ [] = rw (done 0 w at) at (inv.each 0 w at).holds in
      let none_left : length inv.waiting ≡ 0 = rw nothing refl in
      omega (arith, inv.left, finished_sum (λ w. left_in w.phase) r.workers (λ w e. rw e refl) done)

  pub no_work : (r : Workers C P) → Inv 0 r → AllFinished r.workers
  no_work r inv = elim (running_or_finished r.workers) [
    | inl done ↦ done
    | inr (k, w, at, runs) ↦
        let (m', _, _, less) =
          step-WorkersInv json laws multiply n ids bytes_at IsReady IsResult job 0 r k inv in
        absurd (omega (arith, less (w, at, runs)))
  ]

  pub step-Works :
      0 < n
      → Works
          (step json multiply)
          n
          Inv
          (Running json laws multiply n ids bytes_at IsReady IsResult)
  step-Works some_worker = record {
    keep = step-WorkersInv json laws multiply n ids bytes_at IsReady IsResult job;
    other = λ r j k ne (w, at, runs). (w, step-other r j k ne ∙ at, runs);
    some_running = λ m r inv. elim (running_or_finished r.workers) [
      | inl done ↦ inl (finished-left m r some_worker inv done)
      | inr (k, w, at, runs) ↦
          inr (k, omega (arith, inv.size, get_elem?-lt r.workers k w at), (w, at, runs))
    ];
  }

module _ {J C P : Type 0} (json : Json J C) (laws : IsJson json)
    (multiply : P → List ℕ → Outcome (List ℕ × P)) (bytes_at : ℕ → List ℕ) (IsReady : P → Type 0)
    (IsResult : ℕ → List ℕ → Type 0) (input output : ExchangeFile C) (fs : Files) (index : ℕ)
    (products : List P) (queue : List Entry) where
  abbrev ids : List ℕ
  ids = entry_ids queue

  pub inputs_length :
      (waiting : List Entry)
      → AreInputs (length products) ids bytes_at IsReady IsResult fs waiting
      → length (entry_ids waiting) ≡ length waiting
  inputs_length [] h = refl
  inputs_length (e ∷ waiting) h = rw (ne→== e.id u32_max h.0.0) (ap suc (inputs_length waiting h.1))

  -- Before the first step all of the work is left.
  pub start-Inv :
      (last : Entry)
      → last.id ≡ u32_max
      → Shows json laws input (queue ++ last ∷ [])
      → AreInputs (length products) ids bytes_at IsReady IsResult fs queue
      → Serves json laws output [] (range_from 1 (length products)) []
      → ((i : ℕ) → fs.writable (output_file i) ≡ true)
      → AllReady IsReady products
      → 0 < length products
      → WorkersInv json laws multiply
          (length products)
          ids
          bytes_at
          IsReady
          IsResult
          (2 * length queue + 2 * length products)
          (start input output fs index products)
  start-Inv last last_ends shows inputs serves writable ready some_worker = record {
    waiting = queue;
    sent = [];
    shared = record {
      last = last;
      last_ends = last_ends;
      shows = shows;
      inputs = inputs;
      serves = serves;
      outputs = tt;
      writable = writable;
    };
    size = length-start_workers index IsReady 1 products;
    each = λ k w at.
        let (phase, client, is_ready) = start_workers-get index IsReady 1 k products w ready at in
        record {
          client = client ∙ one_more k;
          ready = is_ready;
          holds = rw phase tt;
          ended = (λ e. absurd (idle w phase e), λ h. absurd (omega arith));
        };
    conserved = λ i. omega (arith, start_workers-held index IsReady 1 i products);
    left = omega (arith, start_workers-left index IsReady 1 products);
    paced =
        omega (arith, inputs_length queue inputs, start_workers-unsent index IsReady 1 products);
    closed = λ done. absurd (first_idle products some_worker done);
  }
    where
      one_more : (k : ℕ) → 1 + k ≡ suc k
      one_more k = omega arith

      idle : (w : Worker P) → w.phase ≡ pulling → w.phase ≡ finished → ⊥
      idle w phase e = cc

      first_idle : (ps : List P) → 0 < length ps → AllFinished (start_workers 1 index ps) → ⊥
      first_idle [] h done = absurd (omega arith)
      first_idle (p ∷ ps) h done = idle (new_worker 1 index p) refl (done 0 _ refl)

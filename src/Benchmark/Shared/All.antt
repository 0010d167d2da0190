-- ===== src/Benchmark/Shared/All.antt =====
-- All workers that share two exchange files: what their steps keep.
use mathlib.Core.Path.{subst}
use compute_web_app.Prelude.{
  ℕ, suc, ◌+◌, ◌*◌, ◌≤◌, ◌<◌, ◌≡◌, ◌≢◌, refl, sym, ◌∙◌, ◌⊎◌, inl, inr, List, [], ◌∷◌, ◌++◌, some,
  length, count, get_elem?, set, sum_over, sum_over-set, sum_over-get, get_elem?-set,
  get_elem?-set_self, length-set, get_elem?-lt, arith, ◌==◌, ==_iff, Bool-cases, Option-cases,
}
use compute_web_app.Outcome.{Outcome}
use compute_web_app.Aggregate.File.{end_signals}
use compute_web_app.Exchange.Library.{Json, IsJson}
use compute_web_app.Exchange.{Entry}
use compute_web_app.Exchange.Clients.Ordered.{HasAll, HasAll-get}
use compute_web_app.Benchmark.Shared.{
  Phase, pulling, working, ending, finished, crashed, Worker, Shared, Workers, act_at, step,
}
use compute_web_app.Benchmark.Shared.Invariant.{
  entry_ids, end_entry, left_in, unsent_in, held, IsJob, PhaseHolds, WorkerInv, SharedInv, Moves,
}
use compute_web_app.Benchmark.Shared.Steps.{act-Moves}

abbrev pub AllFinished : {P : Type 0} → List (Worker P) → Type 0
AllFinished {P} ws = (k : ℕ) (w : Worker P) → get_elem? ws k ≡ some w → w.phase ≡ finished

-- The queue ends with an end signal, before which one of n clients had sent none.
pub record Closed (n : ℕ) (sent : List Entry) : Type 0 where
  pub body : List Entry
  pub client_id : ℕ
  pub split : sent ≡ body ++ end_entry client_id ∷ []
  pub low : 1 ≤ client_id
  pub high : client_id ≤ n
  pub running : ¬ HasAll n (end_signals body)

module _ {J C P : Type 0} (json : Json J C) (laws : IsJson json)
    (multiply : P → List ℕ → Outcome (List ℕ × P)) (n : ℕ) (ids : List ℕ) (bytes_at : ℕ → List ℕ)
    (IsReady : P → Type 0) (IsResult : ℕ → List ℕ → Type 0) where
  -- With `m` steps of work left: each dataset stands in the supplier's queue, or is held by a worker,
  -- or its result was sent.
  pub record WorkersInv (m : ℕ) (r : Workers C P) : Type 0 where
    pub waiting : List Entry
    pub sent : List Entry
    pub shared : SharedInv n ids bytes_at IsReady IsResult json laws r.shared waiting sent
    pub size : length r.workers ≡ n
    pub each :
        (k : ℕ) (w : Worker P)
        → get_elem? r.workers k ≡ some w
        → WorkerInv n ids bytes_at IsReady IsResult waiting sent k w
    pub conserved :
        (i : ℕ)
        → count i (entry_ids waiting) + sum_over (held i) r.workers + count i (entry_ids sent)
          ≡ count i ids
    pub left : m ≡ 2 * length waiting + sum_over (λ w. left_in w.phase) r.workers
    pub paced :
        length sent + length waiting + sum_over (λ w. unsent_in w.phase) r.workers ≡ length ids + n
    pub closed : AllFinished r.workers → Closed n sent

  -- The worker at position k runs.
  abbrev pub Running : ℕ → Workers C P → Type 0
  Running k r = (w : Worker P) × (get_elem? r.workers k ≡ some w) × (w.phase ≢ finished)

  -- Another worker does not notice a step.
  unnoticed :
      (waiting sent waiting' sent' : List Entry) (j : ℕ) (w : Worker P)
      → (waiting ≡ [] → waiting' ≡ [])
      → count (suc j) (end_signals sent') ≡ count (suc j) (end_signals sent)
      → WorkerInv n ids bytes_at IsReady IsResult waiting sent j w
      → WorkerInv n ids bytes_at IsReady IsResult waiting' sent' j w
  unnoticed waiting sent waiting' sent' j w empty same inv = record {
    client = inv.client;
    ready = inv.ready;
    holds = by_phase w.phase inv.holds;
    ended = rw same inv.ended;
  }
    where
      by_phase :
          (ph : Phase)
          → PhaseHolds n ids bytes_at IsReady IsResult waiting w ph
          → PhaseHolds n ids bytes_at IsReady IsResult waiting' w ph
      by_phase pulling h = h
      by_phase working h = h
      by_phase ending h = empty h
      by_phase finished h = empty h
      by_phase crashed h = h

  module _ (m : ℕ) (r : Workers C P) (inv : WorkersInv m r)
      (job : IsJob multiply ids bytes_at IsReady IsResult) (k : ℕ) (w : Worker P)
      (at : get_elem? r.workers k ≡ some w) where
    -- What a worker holds was not sent.
    held_fresh : w.phase ≡ working → count w.index (entry_ids inv.sent) ≡ 0
    held_fresh busy =
        let i = w.index in
        let mine : held i w ≡ 1 = rw busy (ground arith) in
        omega (arith, inv.conserved i, job.unique i, sum_over-get (held i) r.workers k w at)

    module _ (w' : Worker P) (s' : Shared C)
        (moves : Moves n ids bytes_at IsReady IsResult json laws inv.waiting inv.sent k w w'
          s') where
      each' :
          (j : ℕ) (v : Worker P)
          → get_elem? (set r.workers k w') j ≡ some v
          → WorkerInv n ids bytes_at IsReady IsResult moves.waiting' moves.sent' j v
      each' j v there = elim (Bool-cases (j == k)) [
        | inl same ↦
            let here : j ≡ k = (==_iff j k).0 same in
            let new : w' ≡ v = ap_some (
              sym (get_elem?-set_self r.workers k w' (get_elem?-lt r.workers k w at))
              ∙ rw here at there) in
            subst (λ i. WorkerInv n ids bytes_at IsReady IsResult moves.waiting' moves.sent' i v)
              (sym here) (rw new at moves.worker)
        | inr different ↦
            let ne : k ≢ j = ground arith in
            let ne' : j ≢ k = ground arith in
            unnoticed inv.waiting inv.sent moves.waiting' moves.sent' j v moves.empty
              (moves.others j ne') (inv.each j v (sym (get_elem?-set r.workers k j w' ne) ∙ there))
      ]
        where
          ap_some : {x y : Worker P} → some x ≡ some y → x ≡ y
          ap_some e = cc

      closed' : k < n → AllFinished (set r.workers k w') → Closed n moves.sent'
      closed' inside done = by_cases (moves.closes mine)
        where
          mine : w'.phase ≡ finished
          mine = done k w' (get_elem?-set_self r.workers k w' (get_elem?-lt r.workers k w at))

          before : w.phase ≡ finished → AllFinished r.workers
          before ended j v there = elim (Bool-cases (j == k)) [
            | inl same ↦
                let here : j ≡ k = (==_iff j k).0 same in
                let old : get_elem? r.workers k ≡ some v = rw here at there in
                let e : w ≡ v = cc in rw e at ended
            | inr different ↦
                let ne : k ≢ j = ground arith in
                done j v (get_elem?-set r.workers k j w' ne ∙ there)
          ]

          unsent : w.phase ≢ finished → ¬ HasAll n (end_signals inv.sent)
          unsent runs all = runs (
              (inv.each k w at).ended.1
                (HasAll-get n (suc k) (end_signals inv.sent) all (omega arith) (omega arith)))

          by_cases :
              (w.phase ≡ finished) × (moves.sent' ≡ inv.sent)
                ⊎ (w.phase ≢ finished) × (moves.sent' ≡ inv.sent ++ end_entry (suc k) ∷ [])
              → Closed n moves.sent'
          by_cases (inl (ended, same)) = rw same (inv.closed (before ended))
          by_cases (inr (runs, split)) = record {
            body = inv.sent;
            client_id = suc k;
            split = split;
            low = omega arith;
            high = omega arith;
            running = unsent runs;
          }

      conserved' :
          (i : ℕ)
          → count i (entry_ids moves.waiting')
              + sum_over (held i) (set r.workers k w')
              + count i (entry_ids moves.sent')
            ≡ count i ids
      conserved' i =
          omega
            (arith, moves.conserved i, inv.conserved i, sum_over-set (held i) r.workers k w w' at)

      abbrev left' : ℕ
      left' = 2 * length moves.waiting' + sum_over (λ v. left_in v.phase) (set r.workers k w')

      less_left : (left' ≤ m) × (w.phase ≢ finished → left' < m)
      less_left = by_cases moves.less
        where
          sums :
              sum_over (λ v. left_in v.phase) (set r.workers k w') + left_in w.phase
              ≡ sum_over (λ v. left_in v.phase) r.workers + left_in w'.phase
          sums = sum_over-set (λ v. left_in v.phase) r.workers k w w' at

          by_cases :
              (w' ≡ w) × (moves.waiting' ≡ inv.waiting) × (w.phase ≡ finished)
                ⊎ (2 * length moves.waiting' + left_in w'.phase
                    < 2 * length inv.waiting + left_in w.phase)
                  × (w.phase ≢ finished)
              → (left' ≤ m) × (w.phase ≢ finished → left' < m)
          by_cases (inl (same, kept, ended)) =
              let e : left_in w'.phase ≡ left_in w.phase = rw same refl in
              let e' : length moves.waiting' ≡ length inv.waiting = rw kept refl in
              (omega (arith, sums, inv.left), λ runs. absurd (runs ended))
          by_cases (inr (less, runs)) =
              (omega (arith, sums, inv.left), λ _. omega (arith, sums, inv.left))

      -- The invariant after the step of a worker.
      stepped :
          (m' : ℕ) × WorkersInv m' (record { shared = s'; workers = set r.workers k w' })
          × (m' ≤ m)
          × (w.phase ≢ finished → m' < m)
      stepped = (
        left',
        record {
          waiting = moves.waiting';
          sent = moves.sent';
          shared = moves.shared;
          size = length-set r.workers k w' ∙ inv.size;
          each = each';
          conserved = conserved';
          left = refl;
          paced = omega (
            arith,
            inv.paced,
            moves.paced,
            sum_over-set (λ v. unsent_in v.phase) r.workers k w w' at,
          );
          closed = closed' (omega (arith, get_elem?-lt r.workers k w at, inv.size));
        },
        less_left.0,
        less_left.1,
      )

  module _ (job : IsJob multiply ids bytes_at IsReady IsResult) where
    pub step-WorkersInv :
        (m : ℕ) (r : Workers C P) (k : ℕ)
        → WorkersInv m r
        → (m' : ℕ) × WorkersInv m' (step json multiply r k) × (m' ≤ m) × (Running k r → m' < m)
    unfolding step
    step-WorkersInv m r k inv = elim (Option-cases (get_elem? r.workers k)) [
      | inl missing ↦ rw (missing, act_at) (m, inv, omega arith, λ running. cc)
      | inr (w, at) ↦
          let (w', s', acted, moves) =
            act-Moves json laws multiply n ids bytes_at IsReady IsResult inv.sent k w r.shared
              inv.waiting job (omega (arith, get_elem?-lt r.workers k w at, inv.size)) inv.shared
              (inv.each k w at) (held_fresh m r inv job k w at) in
          let (m', inv', le, lt) = stepped m r inv job k w at w' s' moves in
          rw (at, act_at, acted)
            (m', inv', le, λ (v, there, runs). lt (λ ended. runs (same_phase w v at there ended)))
    ]
      where
        same_phase :
            (w v : Worker P)
            → get_elem? r.workers k ≡ some w
            → some w ≡ some v
            → w.phase ≡ finished
            → v.phase ≡ finished
        same_phase w v at there ended = let e : w ≡ v = cc in rw e at ended

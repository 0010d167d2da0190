-- ===== src/Supply/Threads/Actions.antt =====
-- What one action of a supplier thread does to the queue, to the thread and to the others.
use mathlib.Core.Path.{subst}
use compute_web_app.Prelude.{
  ℕ, zero, suc, ◌+◌, ◌*◌, ◌<◌, ◌≡◌, ◌≢◌, refl, sym, ◌∙◌, inl, inr, List, [], ◌∷◌, some, length,
  get_elem?, set, count, arith,
}
use compute_web_app.Dataset.{Dataset, Data}
use compute_web_app.Supply.{DataSupplyState}
use compute_web_app.Supply.Queue.{IsValid, grab_dataset-Grabs}
use compute_web_app.Supply.Threads.{
  Phase, grabbing, holding, finished, crashed, failed, PushResult, returns, throws, waits, Thread,
  act, act_in, after_pushing, pushed_count, held_count, unfinished,
}

abbrev pub StandsAt : Data → Dataset → ℕ → Type 0
StandsAt source ds i = get_elem? source.datasets i ≡ some ds

abbrev pub AllStand : Data → List (Dataset × ℕ) → Type 0
AllStand source [] = Unit {0}
AllStand source ((ds, i) ∷ rest) = (get_elem? source.datasets i ≡ some ds) × AllStand source rest

-- A thread that has ended has sent one end signal, any other none, and none has crashed in
-- GrabDataset.
abbrev pub Signals : Thread → Phase → Type 0
Signals t grabbing = t.end_signals ≡ 0
Signals t (holding ds i) = t.end_signals ≡ 0
Signals t finished = t.end_signals ≡ 1
Signals t crashed = ⊥
Signals t (failed ds i) = t.end_signals ≡ 0

-- What a thread pushed are datasets of the data, each with its own index; its count is right.
pub record IsSound (source : Data) (t : Thread) : Type 0 where
  pub stand : AllStand source t.pushed
  pub counted : t.total_buffers ≡ length t.pushed
  pub signals : Signals t t.phase

module _ (pushes : Dataset → ℕ → PushResult) where
  -- What is known of a thread in each phase, with the queue that it shares.
  abbrev pub PhaseOk : Data → List ℕ → Thread → Phase → Type 0
  PhaseOk source queue t grabbing = t.end_signals ≡ 0
  PhaseOk source queue t (holding ds i) = (t.end_signals ≡ 0) × StandsAt source ds i
  PhaseOk source queue t finished = (t.end_signals ≡ 1) × (queue ≡ [])
  PhaseOk source queue t crashed = ⊥
  PhaseOk source queue t (failed ds i) =
      (t.end_signals ≡ 0) × StandsAt source ds i × (pushes ds i ≡ throws)

  pub record IsThread (source : Data) (queue : List ℕ) (t : Thread) : Type 0 where
    pub stand : AllStand source t.pushed
    pub counted : t.total_buffers ≡ length t.pushed
    pub in_phase : PhaseOk source queue t t.phase

  -- An action of thread t on s: the data is the same, the indices stay valid and are conserved, an
  -- empty queue stays empty, and the thread is well formed again.
  pub record Acts (s : DataSupplyState) (t : Thread) (t' : Thread) (s' : DataSupplyState)
      : Type 0 where
    pub source : s'.source ≡ s.source
    pub valid : IsValid s'
    pub thread : IsThread s.source s'.datasets_to_provide t'
    pub empty : s.datasets_to_provide ≡ [] → s'.datasets_to_provide ≡ []
    pub progress :
        ((ds : Dataset) (i : ℕ) → pushes ds i ≡ returns)
        → t.phase ≢ finished
        → 2 * length s'.datasets_to_provide + unfinished t'.phase
          < 2 * length s.datasets_to_provide + unfinished t.phase
    pub conserved :
        (i : ℕ)
        → pushed_count i t'.pushed + held_count i t'.phase + count i s'.datasets_to_provide
          ≡ pushed_count i t.pushed + held_count i t.phase + count i s.datasets_to_provide

  no_throw : throws ≡ returns → ⊥
  no_throw e = cc

  no_wait : waits ≡ returns → ⊥
  no_wait e = cc

  push_cases :
      (s : DataSupplyState) (t : Thread) (ds : Dataset) (i : ℕ) (r : PushResult)
      → pushes ds i ≡ r
      → t.phase ≡ holding ds i
      → IsValid s
      → IsThread s.source s.datasets_to_provide t
      → t.end_signals ≡ 0
      → StandsAt s.source ds i
      → Acts s t (after_pushing ds i t r) s
  unfolding act
  push_cases s t ds i returns pushed e v h none_sent found = record {
    source = refl;
    valid = v;
    thread = record {
      stand = (found, h.stand);
      counted = omega (arith, h.counted);
      in_phase = none_sent;
    };
    empty = λ q. q;
    progress = λ _ _. rw e (omega arith);
    conserved = λ j. rw e (omega arith);
  }
  push_cases s t ds i throws pushed e v h none_sent found = record {
    source = refl;
    valid = v;
    thread = record { stand = h.stand; counted = h.counted; in_phase = (none_sent, found, pushed) };
    empty = λ q. q;
    progress = λ all_return _. absurd (no_throw (sym pushed ∙ all_return ds i));
    conserved = λ j. rw e refl;
  }
  push_cases s t ds i waits pushed e v h none_sent found = record {
    source = refl;
    valid = v;
    thread = h;
    empty = λ q. q;
    progress = λ all_return _. absurd (no_wait (sym pushed ∙ all_return ds i));
    conserved = λ j. refl;
  }

  act_in-Acts :
      (s : DataSupplyState) (t : Thread) (phase : Phase)
      → t.phase ≡ phase
      → IsValid s
      → IsThread s.source s.datasets_to_provide t
      → let (t', s') = act_in pushes phase t s in Acts s t t' s'
  unfolding act
  act_in-Acts s t grabbing e v h =
      let ph : PhaseOk s.source s.datasets_to_provide t grabbing = rw e at h.in_phase in
      elim (grab_dataset-Grabs s v) [
        | inl (none_left, r) ↦ rw r (record {
          source = refl;
          valid = v;
          thread = record {
            stand = h.stand;
            counted = h.counted;
            in_phase = (omega arith, none_left);
          };
          empty = λ q. q;
          progress = λ _ _. rw e (omega arith);
          conserved = λ i. rw e refl;
        })
        | inr (i, rest, ds, queue, found, r, below) ↦ rw r (record {
          source = refl;
          valid = below;
          thread = record { stand = h.stand; counted = h.counted; in_phase = (ph, found) };
          empty = λ q. ground arith;
          progress = λ _ _. rw (e, queue) (omega arith);
          conserved = λ j. rw (e, queue) (omega arith);
        })
      ]
  act_in-Acts s t (holding ds i) e v h =
      let ph : PhaseOk s.source s.datasets_to_provide t (holding ds i) = rw e at h.in_phase in
      push_cases s t ds i (pushes ds i) refl e v h ph.0 ph.1
  act_in-Acts s t finished e v h = record {
    source = refl;
    valid = v;
    thread = h;
    empty = λ q. q;
    progress = λ _ ne. absurd (ne e);
    conserved = λ j. refl;
  }
  act_in-Acts s t crashed e v h = let ph : ⊥ = rw e at h.in_phase in absurd ph
  act_in-Acts s t (failed ds i) e v h =
      let ph : PhaseOk s.source s.datasets_to_provide t (failed ds i) = rw e at h.in_phase in
      record {
        source = refl;
        valid = v;
        thread = h;
        empty = λ q. q;
        progress = λ all_return ne. absurd (no_throw (sym ph.2 ∙ all_return ds i));
        conserved = λ j. refl;
      }

  pub act-Acts :
      (s : DataSupplyState) (t : Thread)
      → IsValid s
      → IsThread s.source s.datasets_to_provide t
      → let (t', s') = act pushes t s in Acts s t t' s'
  unfolding act
  act-Acts s t v h = act_in-Acts s t t.phase refl v h

  -- What holds of a thread alone, whatever the queue.
  pub IsThread-IsSound :
      (source : Data) (queue : List ℕ) (t : Thread) → IsThread source queue t → IsSound source t
  IsThread-IsSound source queue t h = record {
    stand = h.stand;
    counted = h.counted;
    signals = signals t.phase refl;
  }
    where
      signals : (phase : Phase) → t.phase ≡ phase → Signals t phase
      signals grabbing e = rw e at h.in_phase
      signals (holding ds i) e =
          let ph : PhaseOk source queue t (holding ds i) = rw e at h.in_phase in ph.0
      signals finished e = let ph : PhaseOk source queue t finished = rw e at h.in_phase in ph.0
      signals (failed ds i) e =
          let ph : PhaseOk source queue t (failed ds i) = rw e at h.in_phase in ph.0
      signals crashed e = let ph : ⊥ = rw e at h.in_phase in ph

  -- A thread ends only on an empty queue.
  pub IsThread-empty :
      (source : Data) (queue : List ℕ) (t : Thread)
      → t.phase ≡ finished
      → IsThread source queue t
      → queue ≡ []
  IsThread-empty source queue t e h =
      let ph : PhaseOk source queue t finished = rw e at h.in_phase in ph.1

  PhaseOk-other :
      (source : Data) (queue queue' : List ℕ) (t : Thread) (phase : Phase)
      → (queue ≡ [] → queue' ≡ [])
      → PhaseOk source queue t phase
      → PhaseOk source queue' t phase
  PhaseOk-other source queue queue' t grabbing keep h = h
  PhaseOk-other source queue queue' t (holding ds i) keep h = h
  PhaseOk-other source queue queue' t finished keep h = (h.0, keep h.1)
  PhaseOk-other source queue queue' t crashed keep h = h
  PhaseOk-other source queue queue' t (failed ds i) keep h = h

  abbrev pub AllThreads : Data → List ℕ → List Thread → Type 0
  AllThreads source queue [] = Unit {0}
  AllThreads source queue (t ∷ ts) = IsThread source queue t × AllThreads source queue ts

  -- The other threads stay well formed where an action of one empties the queue no less.
  pub AllThreads-other :
      (source : Data) (queue queue' : List ℕ) (ts : List Thread)
      → (queue ≡ [] → queue' ≡ [])
      → AllThreads source queue ts
      → AllThreads source queue' ts
  AllThreads-other source queue queue' [] keep h = tt
  AllThreads-other source queue queue' (t ∷ ts) keep (h, hs) = (
    record {
      stand = h.stand;
      counted = h.counted;
      in_phase = PhaseOk-other source queue queue' t t.phase keep h.in_phase;
    },
    AllThreads-other source queue queue' ts keep hs,
  )

  pub AllThreads-get :
      (source : Data) (queue : List ℕ) (ts : List Thread) (k : ℕ) (t : Thread)
      → get_elem? ts k ≡ some t
      → AllThreads source queue ts
      → IsThread source queue t
  AllThreads-get source queue [] k t e h = cc
  AllThreads-get source queue (x ∷ ts) zero t e h =
      let same : x ≡ t = cc in subst (IsThread source queue) same h.0
  AllThreads-get source queue (x ∷ ts) (suc k) t e h = AllThreads-get source queue ts k t e h.1

  pub AllThreads-set :
      (source : Data) (queue : List ℕ) (ts : List Thread) (k : ℕ) (t : Thread)
      → IsThread source queue t
      → AllThreads source queue ts
      → AllThreads source queue (set ts k t)
  AllThreads-set source queue [] k t new h = tt
  AllThreads-set source queue (x ∷ ts) zero t new h = (new, h.1)
  AllThreads-set source queue (x ∷ ts) (suc k) t new h =
      (h.0, AllThreads-set source queue ts k t new h.1)

-- A sum over the threads changes by what the one thread adds.

-- ===== src/Benchmark/Shared/Written.antt =====
-- The file of a result is written, and its dataset is pushed.
use compute_web_app.Prelude.{
  ℕ, ◌+◌, ◌<◌, ◌≡◌, ◌≢◌, refl, ◌∙◌, inl, inr, List, [], ◌∷◌, ◌++◌, true, false, count, arith, ◌==◌,
  ne→==, if◌then◌else◌,
}
use compute_web_app.Prelude.Words.{u32_mod, u32_max}
use compute_web_app.Prelude.Text.{text_eq}
use compute_web_app.Dataset.{Files, write_file}
use compute_web_app.Dataset.Buffers.{write_file-other, write_file-same}
use compute_web_app.Aggregate.File.{end_signals}
use compute_web_app.Exchange.{Entry}
use compute_web_app.Benchmark.Shared.Names.{output_file, output_file_ne}
use compute_web_app.Benchmark.Shared.Invariant.{entry_ids, AreInputs, IsOutput, AreOutputs}

pub entry_ids-data :
    (i : ℕ) (queue : List Entry) (e : Entry)
    → e.id ≢ u32_max
    → count i (entry_ids (queue ++ e ∷ [])) ≡ count i (entry_ids queue) + count i (e.id ∷ [])
entry_ids-data i [] e h = rw (ne→== e.id u32_max h) (omega arith)
entry_ids-data i (d ∷ queue) e h = ground (arith, entry_ids-data i queue e h)

pub entry_ids-end :
    (i : ℕ) (queue : List Entry) (e : Entry)
    → e.id ≡ u32_max
    → count i (entry_ids (queue ++ e ∷ [])) ≡ count i (entry_ids queue)
entry_ids-end i [] e h = rw h refl
entry_ids-end i (d ∷ queue) e h = ground (arith, entry_ids-end i queue e h)

pub end_signals-data :
    (queue : List Entry) (e : Entry)
    → e.id ≢ u32_max
    → end_signals (queue ++ e ∷ []) ≡ end_signals queue
end_signals-data [] e h = rw (ne→== e.id u32_max h) refl
end_signals-data (d ∷ queue) e h = rw (end_signals-data queue e h) refl

pub end_signals-end :
    (i : ℕ) (queue : List Entry) (e : Entry)
    → e.id ≡ u32_max
    → count i (end_signals (queue ++ e ∷ []))
      ≡ count i (end_signals queue) + count i (e.client_id ∷ [])
end_signals-end i [] e h = rw h (omega arith)
end_signals-end i (d ∷ queue) e h = ground (arith, end_signals-end i queue e h)

module _ {P : Type 0} (n : ℕ) (ids : List ℕ) (bytes_at : ℕ → List ℕ) (IsReady : P → Type 0)
    (IsResult : ℕ → List ℕ → Type 0) where
  pub AreInputs-write :
      (fs : Files) (queue : List Entry) (i : ℕ) (r : List ℕ)
      → AreInputs n ids bytes_at IsReady IsResult fs queue
      → AreInputs n ids bytes_at IsReady IsResult (write_file fs (output_file i) r) queue
  AreInputs-write fs [] i r h = tt
  AreInputs-write fs (e ∷ queue) i r ((other, known, stands, apart), h) = (
    (other, known, write_file-other fs (output_file i) e.filename r (apart i) ∙ stands, apart),
    AreInputs-write fs queue i r h,
  )

  -- A result is written whose index was not sent before.
  pub AreOutputs-write :
      (fs : Files) (queue : List Entry) (i : ℕ) (r : List ℕ)
      → i < u32_mod
      → ((j : ℕ) → 0 < count j ids → j < u32_max)
      → count i (entry_ids queue) ≡ 0
      → AreOutputs n ids bytes_at IsReady IsResult fs queue
      → AreOutputs n ids bytes_at IsReady IsResult (write_file fs (output_file i) r) queue
  AreOutputs-write fs [] i r small below fresh h = tt
  AreOutputs-write fs (e ∷ queue) i r small below fresh (inl end, h) =
      let fresh' : count i (entry_ids queue) ≡ 0 = rw end.0 at fresh in
      (inl end, AreOutputs-write fs queue i r small below fresh' h)
  AreOutputs-write fs (e ∷ queue) i r small below fresh
        (inr (other, known, named, (q, stands, right)), h) =
      let fresh' : (if e.id == i then 1 else 0) + count i (entry_ids queue) ≡ 0 =
        rw (ne→== e.id u32_max other) at fresh in
      let ne : e.id ≢ i = ground arith in
      let small' : e.id < u32_mod = omega (arith, below e.id known) in
      let apart : text_eq e.filename (output_file i) ≡ false =
        rw named (output_file_ne e.id i small' small ne) in
      (
        inr (
          other,
          known,
          named,
          (q, write_file-other fs (output_file i) e.filename r apart ∙ stands, right),
        ),
        AreOutputs-write fs queue i r small below (omega arith) h,
      )

  pub AreOutputs-last :
      (fs : Files) (queue : List Entry) (e : Entry)
      → AreOutputs n ids bytes_at IsReady IsResult fs queue
      → IsOutput n ids bytes_at IsReady IsResult fs e
      → AreOutputs n ids bytes_at IsReady IsResult fs (queue ++ e ∷ [])
  AreOutputs-last fs [] e h k = (k, tt)
  AreOutputs-last fs (d ∷ queue) e h k = (h.0, AreOutputs-last fs queue e h.1 k)

  -- The result that was written is one.
  pub written-IsOutput :
      (fs : Files) (i : ℕ) (r : List ℕ)
      → i ≢ u32_max
      → 0 < count i ids
      → fs.writable (output_file i) ≡ true
      → IsResult i r
      → IsOutput n ids bytes_at IsReady IsResult
          (write_file fs (output_file i) r)
          (record { id = i; filename = output_file i; client_id = u32_max })
  written-IsOutput fs i r other known open_it right =
      inr (other, known, refl, (r, write_file-same fs (output_file i) r open_it, right))

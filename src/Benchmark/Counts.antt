-- ===== src/Benchmark/Counts.antt =====
-- Of each dataset of a supplier server the workers at its clients make one result.
use native.Mathlib.Nat.{mod-lt}
use compute_web_app.Prelude.{
  ℕ, suc, ◌+◌, ◌%◌, ◌≤◌, ◌<◌, ◌≡◌, refl, ap, ◌∙◌, List, [], ◌∷◌, ◌++◌, length, count, range_from,
  count-range_from, sum_over, arith, ◌==◌, if◌then◌else◌, Bool-cases, inl, inr, ==_iff,
}
use compute_web_app.Prelude.Words.{u32_mod, u32_max}
use compute_web_app.Prelude.Text.{Text, codes, to_text}
use compute_web_app.Outcome.{Outcome}
use compute_web_app.Dataset.{Dataset}
use compute_web_app.Socket.Dispatch.Shares.{dealt}
use compute_web_app.Aggregate.Server.Merge.{Merges}
use compute_web_app.Aggregate.Server.Senders.{received_of}
use compute_web_app.Benchmark.Round.{AreProduced}
use compute_web_app.Benchmark.Ids.{
  indices, count_id, count_id-received, Merges-count_id, HasEach, HasEach-all,
}
use compute_web_app.Benchmark.Queues.{senders_of, AllProduced}

count-dealt_later :
    (i k i0 : ℕ) (bs : List (List ℕ)) (j : ℕ) → i < i0 → count i (indices (dealt k i0 bs j)) ≡ 0
count-dealt_later i k i0 [] j h = refl
count-dealt_later i k i0 (b ∷ bs) j h = ground (arith, count-dealt_later i k (suc i0) bs j)

-- The share of position j has the index i once if i leaves the remainder j, and never otherwise.
count-dealt :
    (i k i0 : ℕ) (bs : List (List ℕ)) (j : ℕ)
    → i0 ≤ i
    → i < i0 + length bs
    → count i (indices (dealt k i0 bs j)) ≡ (if j == i % k then 1 else 0)
count-dealt i k i0 [] j h l = absurd (omega arith)
count-dealt i k i0 (b ∷ bs) j h l = elim (Bool-cases (i0 == i)) [
  | inl same ↦
      let e : i0 ≡ i = (==_iff i0 i).0 same in
      let e' : i0 % k ≡ i % k = ap (λ n. n % k) e in
      let later = count-dealt_later i k (suc i0) bs j (omega arith) in ground (arith, later)
  | inr other ↦ ground (arith, count-dealt i k (suc i0) bs j)
]

module _ {C : Type 0} (multiply : C → List ℕ → Outcome (List ℕ × C)) where
  indices-AreProduced :
      (c : C) (sent results : List (ℕ × List ℕ))
      → AreProduced multiply c sent results
      → indices results ≡ indices sent
  indices-AreProduced c [] [] h = refl
  indices-AreProduced c [] (r ∷ results) h = absurd h
  indices-AreProduced c (b ∷ sent) [] h = absurd h
  indices-AreProduced c ((i, b) ∷ sent) ((j, r) ∷ results) h =
      rw (h.0, indices-AreProduced h.2.0 sent results h.2.2) refl

  count-AllProduced :
      (product : C) (i k : ℕ) (bs : List (List ℕ)) (j : ℕ) (rss : List (List (ℕ × List ℕ)))
      → i < length bs
      → AllProduced multiply product k bs j rss
      → sum_over (λ rs. count i (indices rs)) rss ≡ count (i % k) (range_from j (length rss))
  count-AllProduced product i k bs j [] h made = refl
  count-AllProduced product i k bs j (rs ∷ rss) h made =
      let same = indices-AreProduced product (dealt k 0 bs j) rs made.1 in
      rw same (
        omega (
          arith,
          count-dealt i k 0 bs j (omega arith) (omega arith),
          count-AllProduced product i k bs (suc j) rss h made.2,
        ))

  -- The index of each dataset is among the results of one worker, once.
  AllProduced-once :
      (product : C) (i : ℕ) (bs : List (List ℕ)) (rss : List (List (ℕ × List ℕ)))
      → 0 < length rss
      → i < length bs
      → AllProduced multiply product (length rss) bs 0 rss
      → sum_over (λ rs. count i (indices rs)) rss ≡ 1
  AllProduced-once product i bs rss some_worker h made =
      count-AllProduced product i (length rss) bs 0 rss h made
      ∙ count-range_from (i % length rss) 0 (length rss) (omega arith)
          (omega (arith, mod-lt i some_worker))

  count_id-senders :
      (product : C) (owner : Text) (ids : List ℕ) (k : ℕ) (bs : List (List ℕ)) (i j : ℕ)
      (rss : List (List (ℕ × List ℕ)))
      → AllProduced multiply product k bs j rss
      → length ids ≡ length rss
      → i < u32_mod
      → sum_over (count_id (codes "dataset_" ++ to_text i)) (received_of owner (senders_of ids rss))
        ≡ sum_over (λ rs. count i (indices rs)) rss
  count_id-senders product owner [] k bs i j [] made n h = refl
  count_id-senders product owner [] k bs i j (rs ∷ rss) made n h = absurd (omega arith)
  count_id-senders product owner (c ∷ ids) k bs i j [] made n h = absurd (omega arith)
  count_id-senders product owner (c ∷ ids) k bs i j (rs ∷ rss) made n h = omega (
    arith,
    count_id-received owner i rs made.0 h,
    count_id-senders product owner ids k bs i (suc j) rss made.2 (omega arith) h,
  )

  -- Of each dataset there is one result in a merge of what the workers send.
  pub HasEach-Merges :
      (product : C) (owner : Text) (ids : List ℕ) (bs : List (List ℕ))
      (rss : List (List (ℕ × List ℕ))) (all : List Dataset)
      → AllProduced multiply product (length rss) bs 0 rss
      → length ids ≡ length rss
      → 0 < length rss
      → length bs ≤ u32_max
      → Merges (received_of owner (senders_of ids rss)) all
      → HasEach (length bs) all
  HasEach-Merges product owner ids bs rss all made n some_worker fit merged =
      HasEach-all (length bs) all (λ i h.
        Merges-count_id (codes "dataset_" ++ to_text i) all _ merged
        ∙ count_id-senders product owner ids (length rss) bs i 0 rss made n (omega arith)
        ∙ AllProduced-once product i bs rss some_worker h made)

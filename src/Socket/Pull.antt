-- ===== src/Socket/Pull.antt =====
-- A worker's loop on its aggregator client: PullDataset until the end signal.
use compute_web_app.Prelude.{
  ℕ, zero, suc, ◌+◌, ◌%◌, ◌≤◌, ◌<◌, ◌≡◌, refl, ap, List, [], ◌∷◌, ◌++◌, Option, none, some, length,
  arith, append_assoc, ne→==, ◌==◌, if◌then◌else◌, Bool-cases, inl, inr,
}
use compute_web_app.Prelude.Words.{u32_max}
use compute_web_app.Prelude.Text.{Text, codes, to_text}
use compute_web_app.Outcome.{Outcome, ok, raise, exits, fault}
use compute_web_app.Dataset.{Files, Dataset}
use compute_web_app.Socket.{Asio, IsAsio, NoShortCall, Socket, fill_dataset, pull_dataset}
use compute_web_app.Socket.Frames.{frame, pull_dataset-frame, pull_dataset-end}
use compute_web_app.Socket.Stream.{frames, AreFrames}
use compute_web_app.Socket.Dispatch.Appends.{Appends}
use compute_web_app.Socket.Dispatch.Shares.{AreBuffers, dealt}

-- What the worker sees of a dataset that it pulled: the index, the id and the buffer.
abbrev pub View : Type 0
View = ℕ × Option (Text × List ℕ)

abbrev pub view : ℕ → Option Dataset → View
view i none = (i, none)
view i (some ds) = (i, some (ds.id, ds.buffer))

abbrev with_view : View → Option (Outcome (List View)) → Option (Outcome (List View))
with_view v (some (ok vs)) = some (ok (v ∷ vs))
with_view v (some (raise e)) = some (raise e)
with_view v (some exits) = some exits
with_view v (some fault) = some fault
with_view v none = none

module _ (asio : Asio) where
  after_pulled :
      (ℕ → Option Dataset → Socket → Option (Outcome (List View)))
      → Option (Outcome (Option Dataset × ℕ × Socket))
      → Option (Outcome (List View))
  after_pulled next none = none
  after_pulled next (some (ok (ds, i, s))) =
      if i == u32_max then some (ok []) else with_view (view i ds) (next i ds s)
  after_pulled next (some (raise e)) = some (raise e)
  after_pulled next (some exits) = some exits
  after_pulled next (some fault) = some fault

  -- The two variables of the worker, the index and the dataset, go from one call to the next. `none`
  -- means that the fuel ran out.
  unfoldable pub pull_all : ℕ → ℕ → Option Dataset → Socket → Option (Outcome (List View))
  unfolding after_pulled
  pull_all zero old ds s = none
  pull_all (suc fuel) old ds s =
      after_pulled (λ i ds' s'. pull_all fuel i ds' s') (pull_dataset asio old ds s)

-- What is to be seen of these frames.
abbrev pub views : List (ℕ × List ℕ) → List View
views [] = []
views ((i, b) ∷ more) = (i, some (codes "dataset_" ++ to_text i, b)) ∷ views more

module _ (asio : Asio) (laws : IsAsio asio) (whole : NoShortCall asio) where
  view-fill_dataset :
      (i : ℕ) (ds : Option Dataset) (b : List ℕ)
      → view i (some (fill_dataset ds i b)) ≡ (i, some (codes "dataset_" ++ to_text i, b))
  unfolding fill_dataset
  view-fill_dataset i none b = refl
  view-fill_dataset i (some ds) b = refl

  -- In a run without a short call, where `receive` behaves as documented: of the frames of buffers with
  -- an end signal a worker pulls each buffer, in order, with its index, and then its loop ends.
  pub pull_all-frames :
      (fuel old calls : ℕ) (ds : Option Dataset) (sent : List (ℕ × List ℕ)) (rest : List ℕ)
      → AreFrames sent
      → length sent < fuel
      → pull_all asio fuel old ds (record { bytes = frames sent ++ rest; calls = calls })
        ≡ some (ok (views sent))
  unfolding pull_all
  pull_all-frames zero old calls ds sent rest fit enough = absurd (omega arith)
  pull_all-frames (suc fuel) old calls ds [] rest fit enough =
      rw (pull_dataset-end asio whole old ds rest calls) refl
  pull_all-frames (suc fuel) old calls ds ((i, b) ∷ sent) rest fit enough =
      let (calls', e) =
        pull_dataset-frame asio whole laws old i ds b (frames sent ++ rest) calls fit.0 fit.1 in
      rw
        (
          append_assoc (frame i b) (frames sent) rest,
          e,
          ne→== i u32_max (omega arith),
          pull_all-frames fuel i calls' (some (fill_dataset ds i b)) sent rest fit.2 (omega arith),
        )
        (ap (λ v. some (ok (v ∷ views sent))) (view-fill_dataset i ds b))

pub dealt-AreFrames :
    (fs : Files) (dss : List Dataset) (k i : ℕ) (bs : List (List ℕ)) (j : ℕ)
    → AreBuffers fs dss bs
    → i + length bs ≤ u32_max
    → AreFrames (dealt k i bs j)
dealt-AreFrames fs dss k i [] j h fit = tt
dealt-AreFrames fs [] k i (b ∷ bs) j h fit = absurd h
dealt-AreFrames fs (ds ∷ dss) k i (b ∷ bs) j h fit =
    let more = dealt-AreFrames fs dss k (suc i) bs j h.2 (omega arith) in
    elim (Bool-cases (i % k == j)) [
      | inl here ↦ rw here (omega arith, h.1, more)
      | inr other ↦ rw other more
    ]

pub length-dealt : (k i : ℕ) (bs : List (List ℕ)) (j : ℕ) → length (dealt k i bs j) ≤ length bs
length-dealt k i [] j = omega arith
length-dealt k i (b ∷ bs) j = ground (arith, length-dealt k (suc i) bs j)

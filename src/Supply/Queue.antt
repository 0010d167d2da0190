-- ===== src/Supply/Queue.antt =====
-- The queue that the constructor of DataSupplyState fills, and what is grabbed from it.
use compute_web_app.Prelude.{
  ◌⊎◌, inl, inr, ℕ, zero, suc, ◌+◌, ◌%◌, ◌≤◌, ◌<◌, ◌≡◌, refl, ap, ◌∙◌, List, [], ◌∷◌, ◌++◌, none,
  some, length, get_elem?, arith, range_from, get_elem?-total, append-nil, append_assoc, lt→ltb,
  le→ltb,
}
use compute_web_app.Prelude.Words.{u32_mod}
use compute_web_app.Outcome.{Outcome, ok, raise, no_more_dataset}
use compute_web_app.Dataset.{Dataset, Data}
use compute_web_app.Supply.{DataSupplyState, fill, new_supply_state, grab_dataset, grab_from}

fill_lem :
    (n fuel i size : ℕ) (queue : List ℕ)
    → i + n ≡ size
    → size < u32_mod
    → n < fuel
    → fill fuel i size queue ≡ some (queue ++ range_from i n)
unfolding fill
fill_lem n zero i size queue e h k = absurd (omega arith)
fill_lem zero (suc fuel) i size queue e h k = rw (le→ltb i size (omega arith), append-nil queue)
fill_lem (suc n) (suc fuel) i size queue e h k =
    let next : (i + 1) % u32_mod ≡ suc i = omega arith in
    rw (lt→ltb i size (omega arith), next)
      (fill_lem n fuel (suc i) size (queue ++ i ∷ []) (omega arith) h (omega arith)
        ∙ ap some (append_assoc queue (i ∷ []) (range_from (suc i) n)))

-- For data of fewer than 2^32 datasets the constructor terminates, and the queue then holds the
-- indices 0, 1, ... of the datasets, in order.
pub new_supply_state-queue :
    (fuel : ℕ) (source : Data)
    → length source.datasets < u32_mod
    → length source.datasets < fuel
    → new_supply_state fuel source
      ≡ some
          (record { source = source; datasets_to_provide = range_from 0 (length source.datasets) })
unfolding new_supply_state
new_supply_state-queue fuel source h k =
    rw (fill_lem (length source.datasets) fuel 0 (length source.datasets) [] (omega arith) h k)

fill_diverges :
    (fuel i size : ℕ) (queue : List ℕ)
    → i < u32_mod
    → u32_mod ≤ size
    → fill fuel i size queue ≡ none
unfolding fill
fill_diverges zero i size queue h k = refl
fill_diverges (suc fuel) i size queue h k =
    rw (lt→ltb i size (omega arith))
      (fill_diverges fuel ((i + 1) % u32_mod) size (queue ++ i ∷ []) (omega arith) k)

-- From 2^32 datasets on the counter wraps below the size for ever: no amount of fuel is enough.
pub new_supply_state_diverges :
    (fuel : ℕ) (source : Data)
    → u32_mod ≤ length source.datasets
    → new_supply_state fuel source ≡ none
unfolding new_supply_state
new_supply_state_diverges fuel source h =
    rw (fill_diverges fuel 0 (length source.datasets) [] (omega arith) h)

-- Every index that waits is one of a dataset.
abbrev pub AllBelow : ℕ → List ℕ → Type 0
AllBelow n [] = Unit {0}
AllBelow n (i ∷ is) = (i < n) × AllBelow n is

abbrev pub IsValid : DataSupplyState → Type 0
IsValid s = AllBelow (length s.source.datasets) s.datasets_to_provide

pub range_from-AllBelow : (n i m : ℕ) → i + m ≤ n → AllBelow n (range_from i m)
range_from-AllBelow n i zero h = tt
range_from-AllBelow n i (suc m) h = (omega arith, range_from-AllBelow n (suc i) m (omega arith))

-- What one call of GrabDataset does: on an empty queue it throws and changes nothing; otherwise it
-- takes the front index off and returns the dataset that stands there.
abbrev pub Grabs : DataSupplyState → Outcome (Dataset × ℕ) × DataSupplyState → Type 0
Grabs s r =
    ((s.datasets_to_provide ≡ []) × (r ≡ (raise no_more_dataset, s)))
    ⊎ ((i : ℕ) × (rest : List ℕ) × (ds : Dataset) × (s.datasets_to_provide ≡ i ∷ rest)
        × (get_elem? s.source.datasets i ≡ some ds)
        × (r ≡ (ok (ds, i), record s { datasets_to_provide = rest }))
        × AllBelow (length s.source.datasets) rest)

grab_found :
    (s : DataSupplyState) (i : ℕ) (rest : List ℕ) (ds : Dataset)
    → get_elem? s.source.datasets i ≡ some ds
    → grab_from s (i ∷ rest) ≡ (ok (ds, i), record s { datasets_to_provide = rest })
unfolding grab_dataset
grab_found s i rest ds h = ground arith

grab_cases :
    (s : DataSupplyState) (queue : List ℕ)
    → s.datasets_to_provide ≡ queue
    → AllBelow (length s.source.datasets) queue
    → Grabs s (grab_dataset s)
unfolding grab_dataset
grab_cases s [] e v = inl (e, ap (grab_from s) e)
grab_cases s (i ∷ rest) e v =
    let (ds, found) = get_elem?-total s.source.datasets i v.0 in
    inr (i, rest, ds, e, found, ap (grab_from s) e ∙ grab_found s i rest ds found, v.1)

-- Where every waiting index is one of a dataset, a call of GrabDataset throws NoMoreDataset and
-- changes nothing if the queue is empty, and otherwise takes off the front index and returns its
-- dataset. The access to the vector is in range, and the rest of the queue stays so.
pub grab_dataset-Grabs : (s : DataSupplyState) → IsValid s → Grabs s (grab_dataset s)
grab_dataset-Grabs s v = grab_cases s s.datasets_to_provide refl v

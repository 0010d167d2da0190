-- ===== src/Exchange/Sections.antt =====
-- data/dataset_exchange_file.cpp: processes that use one exchange file, with their calls interleaved:
-- LockFile, ReadJson, WriteJson and UnlockFile, as in RegisterClient or PushDataset under the lock. An
-- attempt to create a lock file that is there is made again: the runs are those in which no LockFile
-- times out.
use compute_web_app.Prelude.{
  ℕ, ◌≡◌, List, [], ◌∷◌, ◌++◌, Bool, true, false, ◌==◌, count, if◌then◌else◌,
}

-- Where a process stands; the document that it has read.
pub data Stage (D : Type 0) : Type 0 where
  outside entered written left : Stage D
  has_read : D → Stage D

pub record Sections (D : Type 0) : Type 0 where
  pub lock : Bool
  pub document : D
  pub stages : ℕ → Stage D
  -- The processes that have written, in order.
  pub writers : List ℕ

module _ {D : Type 0} where
  abbrev put : ℕ → Stage D → (ℕ → Stage D) → ℕ → Stage D
  put k s stages j = if j == k then s else stages j

  abbrev pub is_inside : Stage D → Bool
  is_inside outside = false
  is_inside entered = true
  is_inside (has_read d) = true
  is_inside written = true
  is_inside left = false

  abbrev pub writes : Stage D → ℕ
  writes outside = 0
  writes entered = 0
  writes (has_read d) = 0
  writes written = 1
  writes left = 1

  abbrev pub all_outside : D → Sections D
  all_outside d = record { lock = false; document = d; stages = λ k. outside; writers = [] }

module _ {D : Type 0} (change : ℕ → D → D) where
  -- A process makes its next call; `change k` is what process k does to the document between ReadJson
  -- and WriteJson.
  advance : Stage D → ℕ → Sections D → Sections D
  advance outside k w =
      if w.lock then w else record w { lock = true; stages = put k entered w.stages }
  advance entered k w = record w { stages = put k (has_read w.document) w.stages }
  advance (has_read d) k w = record w {
    document = change k d;
    stages = put k written w.stages;
    writers = w.writers ++ k ∷ [];
  }
  advance written k w = record w { lock = false; stages = put k left w.stages }
  advance left k w = w

  unfoldable pub run_sections : Sections D → List ℕ → Sections D
  unfolding advance
  run_sections w [] = w
  run_sections w (k ∷ ks) = run_sections (advance (w.stages k) k w) ks

  -- The sections of these processes, one after the other.
  abbrev pub one_by_one : D → List ℕ → D
  one_by_one d [] = d
  one_by_one d (k ∷ ks) = one_by_one (change k d) ks

  pub record IsSerial (start : D) (w : Sections D) : Type 0 where
    pub alone : (j k : ℕ) → is_inside (w.stages j) ≡ true → is_inside (w.stages k) ≡ true → j ≡ k
    pub locked : (j : ℕ) → is_inside (w.stages j) ≡ true → w.lock ≡ true
    pub current : (j : ℕ) (d : D) → w.stages j ≡ has_read d → d ≡ w.document
    pub serial : w.document ≡ one_by_one start w.writers
    pub once : (j : ℕ) → count j w.writers ≡ writes (w.stages j)

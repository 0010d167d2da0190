-- ===== src/Schedules.antt =====
-- Threads or processes whose steps are interleaved by a schedule, which names who steps next. What
-- never runs out of work to do, unless it has ended, ends under a fair schedule.
use mathlib.Core.Path.{subst}
use compute_web_app.Prelude.{
  ℕ, zero, suc, ◌-◌, ◌≤◌, ◌<◌, ◌≡◌, ◌≢◌, refl, sym, ◌⊎◌, inl, inr, List, [], ◌∷◌, ◌++◌, length,
  arith, Bool-cases, ◌==◌, ==_iff,
}

-- Thread k acts somewhere in a schedule; each of n threads does.
abbrev pub Occurs : ℕ → List ℕ → Type 0
Occurs k [] = ⊥
Occurs k (j ∷ js) = (j ≡ k) ⊎ Occurs k js

abbrev pub IsFair : ℕ → List ℕ → Type 0
IsFair zero ks = Unit {0}
IsFair (suc n) ks = Occurs n ks × IsFair n ks

-- Rounds, in each of which every thread acts at least once.
abbrev pub AreFair : ℕ → List (List ℕ) → Type 0
AreFair n [] = Unit {0}
AreFair n (ks ∷ rounds) = IsFair n ks × AreFair n rounds

abbrev pub joined : List (List ℕ) → List ℕ
joined [] = []
joined (ks ∷ rounds) = ks ++ joined rounds

IsFair-Occurs : (n k : ℕ) (ks : List ℕ) → IsFair n ks → k < n → Occurs k ks
IsFair-Occurs zero k ks f h = absurd (omega arith)
IsFair-Occurs (suc n) k ks f h = elim (Bool-cases (n == k)) [
  | inl same ↦ subst (λ m. Occurs m ks) ((==_iff n k).0 same) f.0
  | inr other ↦ IsFair-Occurs n k ks f.1 (ground arith)
]

module _ {S : Type 0} (step : S → ℕ → S) where
  unfoldable pub run_all : S → List ℕ → S
  run_all s [] = s
  run_all s (k ∷ ks) = run_all (step s k) ks

  pub run_all-append : (s : S) (xs ys : List ℕ) → run_all s (xs ++ ys) ≡ run_all (run_all s xs) ys
  unfolding run_all
  run_all-append s [] ys = refl
  run_all-append s (x ∷ xs) ys = run_all-append (step s x) xs ys

  -- An invariant with the work that is left: no step adds to it, a step of a thread that runs takes
  -- from it, and a thread runs on until it steps itself.
  pub record Works (n : ℕ) (Inv Running : ℕ → S → Type 0) : Type 0 where
    pub keep :
        (m : ℕ) (s : S) (k : ℕ)
        → Inv m s
        → (m' : ℕ) × Inv m' (step s k) × (m' ≤ m) × (Running k s → m' < m)
    pub other : (s : S) (j k : ℕ) → j ≢ k → Running k s → Running k (step s j)
    pub some_running : (m : ℕ) (s : S) → Inv m s → (m ≡ 0) ⊎ ((k : ℕ) × (k < n) × Running k s)

  module _ (n : ℕ) (Inv Running : ℕ → S → Type 0) (works : Works n Inv Running) where
    pub run_all-Inv :
        (ks : List ℕ) (m : ℕ) (s : S) → Inv m s → (m' : ℕ) × Inv m' (run_all s ks) × (m' ≤ m)
    unfolding run_all
    run_all-Inv [] m s inv = (m, inv, omega arith)
    run_all-Inv (k ∷ ks) m s inv =
        let (m1, inv1, le1, _) = works.keep m s k inv in
        let (m2, inv2, le2) = run_all-Inv ks m1 (step s k) inv1 in (m2, inv2, omega arith)

    -- A schedule in which a running thread occurs leaves less work.
    run_lt :
        (ks : List ℕ) (m : ℕ) (s : S) (k : ℕ)
        → Inv m s
        → Running k s
        → Occurs k ks
        → (m' : ℕ) × Inv m' (run_all s ks) × (m' < m)
    unfolding run_all
    run_lt [] m s k inv running o = absurd o
    run_lt (j ∷ js) m s k inv running o = elim (Bool-cases (j == k)) [
      | inl same ↦
          let (m1, inv1, _, lt1) = works.keep m s j inv in
          let here : Running j s = subst (λ i. Running i s) (sym ((==_iff j k).0 same)) running in
          let (m2, inv2, le2) = run_all-Inv js m1 (step s j) inv1 in
          let lt = lt1 here in (m2, inv2, omega arith)
      | inr different ↦
          let ne : j ≢ k = ground arith in
          let (m1, inv1, le1, _) = works.keep m s j inv in
          let (m2, inv2, lt2) =
            run_lt js m1 (step s j) k inv1 (works.other s j k ne running) (later ne o) in
          (m2, inv2, omega arith)
    ]
      where
        later : j ≢ k → (j ≡ k) ⊎ Occurs k js → Occurs k js
        later ne (inl same) = absurd (ne same)
        later ne (inr rest) = rest

    -- After a round in which every thread acts there is less work, or none was left.
    round_lt :
        (ks : List ℕ) (m : ℕ) (s : S)
        → Inv m s
        → IsFair n ks
        → (m' : ℕ) × Inv m' (run_all s ks) × (m' ≤ m - 1)
    round_lt ks m s inv fair = elim (works.some_running m s inv) [
      | inl none_left ↦ let (m', inv', le) = run_all-Inv ks m s inv in (m', inv', omega arith)
      | inr (k, inside, running) ↦
          let (m', inv', lt) = run_lt ks m s k inv running (IsFair-Occurs n k ks fair inside) in
          (m', inv', omega arith)
    ]

    -- As many fair rounds as there is work leave none.
    pub fair_rounds :
        (rounds : List (List ℕ)) (m : ℕ) (s : S)
        → Inv m s
        → AreFair n rounds
        → m ≤ length rounds
        → Inv 0 (run_all s (joined rounds))
    unfolding run_all
    fair_rounds [] m s inv fair enough =
        let none_left : m ≡ 0 = omega arith in subst (λ i. Inv i s) none_left inv
    fair_rounds (ks ∷ rounds) m s inv fair enough =
        let (m', inv', le) = round_lt ks m s inv fair.0 in
        rw (run_all-append s ks (joined rounds))
          (fair_rounds rounds m' (run_all s ks) inv' fair.1 (omega arith))

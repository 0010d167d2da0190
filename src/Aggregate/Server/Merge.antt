-- ===== src/Aggregate/Server/Merge.antt =====
-- What the threads of several clients queue: each thread's entries in order, those of different
-- threads in any order.
use compute_web_app.Prelude.{
  ℕ, zero, suc, ◌+◌, ◌<◌, ◌≡◌, refl, sym, List, [], ◌∷◌, some, map, get_elem?, set, count, arith,
  sum_over, sum_over-set, sum_over-get, set_same, map-set, map-get, Bool-cases, inl, inr, ◌==◌,
  if◌then◌else◌,
}
use compute_web_app.Prelude.Words.{u32_max}
use compute_web_app.Prelude.Text.{Text}
use compute_web_app.Socket.{DatasetStruct}
use compute_web_app.Aggregate.Server.Entries.{ends, IsClosed, made, dataset_of}

abbrev pub AllEmpty : {A : Type 0} → List (List A) → Type 0
AllEmpty [] = Unit {0}
AllEmpty (xs ∷ xss) = (xs ≡ []) × AllEmpty xss

-- The list q takes, element for element, the first of what is left of some list; in the end nothing
-- is left.
abbrev pub Merges : {A : Type 0} → List (List A) → List A → Type 0
Merges xss [] = AllEmpty xss
Merges xss (x ∷ q) =
    (k : ℕ) × (xs : List _) × (get_elem? xss k ≡ some (x ∷ xs)) × Merges (set xss k xs) q

abbrev pub AllClosed : List (List DatasetStruct) → Type 0
AllClosed [] = Unit {0}
AllClosed (es ∷ ess) = IsClosed es × AllClosed ess

abbrev ends_of : ℕ → List DatasetStruct → ℕ
ends_of c es = count c (ends es)

no_ends_left :
    (c : ℕ) (ess : List (List DatasetStruct)) → AllEmpty ess → sum_over (ends_of c) ess ≡ 0
no_ends_left c [] h = refl
no_ends_left c (es ∷ ess) h = rw h.0 (omega (arith, no_ends_left c ess h.1))

ends_of-cons :
    (c : ℕ) (e : DatasetStruct) (q : List DatasetStruct)
    → ends_of c (e ∷ q)
      ≡ (if e.id == u32_max then (if e.client_id == c then 1 else 0) else 0) + ends_of c q
ends_of-cons c e q = elim (Bool-cases (e.id == u32_max)) [
  | inl end ↦ rw end refl
  | inr other ↦ rw other (omega arith)
]

-- Every end signal that a thread queues arrives, and no other.
pub Merges-ends :
    (c : ℕ) (q : List DatasetStruct) (ess : List (List DatasetStruct))
    → Merges ess q
    → count c (ends q) ≡ sum_over (λ es. count c (ends es)) ess
Merges-ends c [] ess h = sym (no_ends_left c ess h)
Merges-ends c (e ∷ q) ess (k, es, at, more) =
    let ih = Merges-ends c q (set ess k es) more in
    let moved = sum_over-set (ends_of c) ess k (e ∷ es) es at in
    omega (arith, ih, moved, ends_of-cons c e q, ends_of-cons c e es)

AllClosed-get :
    (ess : List (List DatasetStruct)) (k : ℕ) (es : List DatasetStruct)
    → get_elem? ess k ≡ some es
    → AllClosed ess
    → IsClosed es
AllClosed-get [] k es at h = cc
AllClosed-get (x ∷ ess) zero es at h = let same : x ≡ es = cc in rw same at h.0
AllClosed-get (x ∷ ess) (suc k) es at h = AllClosed-get ess k es at h.1

AllClosed-set :
    (ess : List (List DatasetStruct)) (k : ℕ) (es : List DatasetStruct)
    → IsClosed es
    → AllClosed ess
    → AllClosed (set ess k es)
AllClosed-set [] k es closed h = tt
AllClosed-set (x ∷ ess) zero es closed h = (closed, h.1)
AllClosed-set (x ∷ ess) (suc k) es closed h = (h.0, AllClosed-set ess k es closed h.1)

-- Where each thread queues its end signal last, each stands behind the datasets of its client.
pub Merges-IsClosed :
    (q : List DatasetStruct) (ess : List (List DatasetStruct))
    → Merges ess q
    → AllClosed ess
    → IsClosed q
Merges-IsClosed [] ess h closed = tt
Merges-IsClosed (e ∷ q) ess (k, es, at, more) closed =
    let here = AllClosed-get ess k (e ∷ es) at closed in
    let behind = Merges-IsClosed q (set ess k es) more (AllClosed-set ess k es here.1 closed) in
    elim (Bool-cases (e.id == u32_max)) [
      | inl end ↦ (rw end tt, behind)
      | inr other ↦
          let c = e.client_id in
          let own : 0 < count c (ends es) = rw other at here.0 in
          let moved = sum_over-set (ends_of c) ess k (e ∷ es) es at in
          let whole = sum_over-get (ends_of c) ess k (e ∷ es) at in
          let ih = Merges-ends c q (set ess k es) more in
          let same : ends_of c (e ∷ es) ≡ ends_of c es = rw other refl in
          (rw other (omega (arith, own, moved, ih, same, whole)), behind)
    ]

AllEmpty-made :
    (owner : Text) (ess : List (List DatasetStruct))
    → AllEmpty ess
    → AllEmpty (map (made owner) ess)
AllEmpty-made owner [] h = tt
AllEmpty-made owner (es ∷ ess) h = (rw h.0 refl, AllEmpty-made owner ess h.1)

-- The datasets made of the queue are those made of each thread's entries, merged alike.
pub Merges-made :
    (owner : Text) (q : List DatasetStruct) (ess : List (List DatasetStruct))
    → Merges ess q
    → Merges (map (made owner) ess) (made owner q)
Merges-made owner [] ess h = AllEmpty-made owner ess h
Merges-made owner (e ∷ q) ess (k, es, at, more) =
    let ih = Merges-made owner q (set ess k es) more in
    let left = rw (map-set (made owner) ess k es) at ih in
    let here = map-get (made owner) ess k (e ∷ es) at in
    elim (Bool-cases (e.id == u32_max)) [
      | inl end ↦
          let same : get_elem? (map (made owner) ess) k ≡ some (made owner es) = rw end at here in
          rw end (rw (set_same (map (made owner) ess) k (made owner es) same) at left)
      | inr other ↦
          let first : get_elem? (map (made owner) ess) k
              ≡ some (dataset_of owner e ∷ made owner es) =
            rw other at here in
          rw other (k, made owner es, first, left)
    ]

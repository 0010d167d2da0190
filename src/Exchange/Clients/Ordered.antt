-- ===== src/Exchange/Clients/Ordered.antt =====
-- The set of clients that have ended, as a list in order.
use mathlib.Core.Path.{subst}
use compute_web_app.Prelude.{
  ℕ, zero, suc, ◌+◌, ◌≤◌, ◌<◌, ◌≡◌, refl, ◌↔◌, inl, inr, List, [], ◌∷◌, count, range_from,
  count-range_from, arith, ltb, ltb→lt, lt→ltb, sym, ==_iff, ◌==◌, Bool-cases,
}
use compute_web_app.Socket.Server.Registration.{Rise}
use compute_web_app.Exchange.{set_insert, set_of}

-- Each of the numbers 1 to n is there.
abbrev pub HasAll : ℕ → List ℕ → Type 0
HasAll zero xs = Unit {0}
HasAll (suc n) xs = (0 < count (suc n) xs) × HasAll n xs

pub set_insert-Rise :
    (lo hi n : ℕ) (ns : List ℕ) → Rise lo hi ns → lo ≤ n → n < hi → Rise lo hi (set_insert n ns)
unfolding set_insert
set_insert-Rise lo hi n [] r h k = (h, k, tt)
set_insert-Rise lo hi n (m ∷ ns) r h k = elim (Bool-cases (ltb n m)) [
  | inl lower ↦ rw lower (h, k, (ltb→lt n m lower, r.1, r.2))
  | inr higher ↦ elim (Bool-cases (n == m)) [
    | inl same ↦ rw (higher, same) r
    | inr other ↦
        rw (higher, other) (r.0, r.1, set_insert-Rise (suc m) hi n ns r.2 (ground arith) k)
  ]
]

set_insert_lowest : (lo hi n : ℕ) (ns : List ℕ) → Rise (suc n) hi ns → set_insert n ns ≡ n ∷ ns
unfolding set_insert
set_insert_lowest lo hi n [] r = refl
set_insert_lowest lo hi n (m ∷ ns) r = rw (lt→ltb n m r.0) refl

pub set_of-Rise : (lo hi : ℕ) (ns : List ℕ) → Rise lo hi ns → set_of ns ≡ ns
unfolding set_of
set_of-Rise lo hi [] r = refl
set_of-Rise lo hi (n ∷ ns) r = rw (set_of-Rise (suc n) hi ns r.2) (set_insert_lowest lo hi n ns r.2)

pub count-set_insert :
    (i n : ℕ) (ns : List ℕ) → (0 < count i (set_insert n ns)) ↔ (0 < count i (n ∷ ns))
unfolding set_insert
count-set_insert i n [] = ground arith
count-set_insert i n (m ∷ ns) = ground (arith, count-set_insert i n ns)

HasAll-set_insert : (n c : ℕ) (ns : List ℕ) → HasAll n (set_insert c ns) ↔ HasAll n (c ∷ ns)
HasAll-set_insert zero c ns = (λ h. h, λ h. h)
HasAll-set_insert (suc n) c ns =
    let (to, from) = HasAll-set_insert n c ns in
    let (there, back) = count-set_insert (suc n) c ns in
    (λ h. (there h.0, to h.1), λ h. (back h.0, from h.1))

pub HasAll-get : (n i : ℕ) (ns : List ℕ) → HasAll n ns → 1 ≤ i → i < 1 + n → 0 < count i ns
HasAll-get zero i ns h l k = absurd (omega arith)
HasAll-get (suc n) i ns h l k = elim (Bool-cases (suc n == i)) [
  | inl same ↦ subst (λ m. 0 < count m ns) ((==_iff (suc n) i).0 same) h.0
  | inr other ↦ HasAll-get n i ns h.1 l (ground arith)
]

HasAll-range_from : (n m : ℕ) → n ≤ m → HasAll n (range_from 1 m)
HasAll-range_from zero m h = tt
HasAll-range_from (suc n) m h = (
  omega (arith, count-range_from (suc n) 1 m (omega arith) (omega arith)),
  HasAll-range_from n m (omega arith),
)

count-Rise : (i lo hi : ℕ) (ns : List ℕ) → Rise lo hi ns → i < lo → count i ns ≡ 0
count-Rise i lo hi [] r h = refl
count-Rise i lo hi (k ∷ ks) r h = ground (arith, r.0, count-Rise i (suc k) hi ks r.2)

Rise-range_from :
    (lo n hi : ℕ) (ns : List ℕ)
    → hi ≡ lo + n
    → Rise lo hi ns
    → ((i : ℕ) → lo ≤ i → i < hi → 0 < count i ns)
    → ns ≡ range_from lo n
Rise-range_from lo zero hi [] e r all = refl
Rise-range_from lo zero hi (k ∷ ks) e r all = absurd (omega (arith, r.0, r.1))
Rise-range_from lo (suc n) hi [] e r all =
    absurd (omega (arith, all lo (omega arith) (omega arith)))
Rise-range_from lo (suc n) hi (k ∷ ks) e r all = elim (Bool-cases (k == lo)) [
  | inl same ↦
      let first : k ≡ lo = (==_iff k lo).0 same in
      let more =
        Rise-range_from (suc lo) n hi ks (omega arith) (subst (λ m. Rise (suc m) hi ks) first r.2)
          (λ i l h. later i k ks (omega arith) (all i (omega arith) h)) in
      rw (first, more) refl
  | inr other ↦
      let above = count-Rise lo (suc k) hi ks r.2 (omega (arith, r.0)) in
      let here : 0 < 0 + count lo ks = rw other at (all lo (omega arith) (omega arith)) in
      absurd (omega arith)
]
  where
    later : (i k : ℕ) (ks : List ℕ) → k < i → 0 < count i (k ∷ ks) → 0 < count i ks
    later i k ks l h = ground arith

-- A rising list of numbers from 1 to n has all of them exactly if it is the list of all.
pub range_from-HasAll :
    (n c : ℕ) (ns : List ℕ)
    → Rise 1 (1 + n) (set_insert c ns)
    → (range_from 1 n ≡ set_insert c ns) ↔ HasAll n (c ∷ ns)
range_from-HasAll n c ns r = (
  λ e. (HasAll-set_insert n c ns).0 (rw e at (HasAll-range_from n n (omega arith))),
  λ h. sym (
      Rise-range_from 1 n (1 + n) (set_insert c ns) refl r
        (λ i. HasAll-get n i (set_insert c ns) ((HasAll-set_insert n c ns).1 h))),
)

-- ===== src/Benchmark/Ids.antt =====
-- The ids of the datasets that an aggregator receives: one for each index.
use mathlib.Core.Path.{subst}
use compute_web_app.Prelude.{
  true, ℕ, zero, suc, ◌+◌, ◌<◌, ◌≡◌, refl, sym, ap, ◌∙◌, List, [], ◌∷◌, ◌++◌, set, count, sum_over,
  sum_over-set, arith, ◌==◌, ==_iff, if◌then◌else◌, Bool-cases, inl, inr, append-nil,
}
use compute_web_app.Prelude.Words.{u32_mod}
use compute_web_app.Prelude.Text.{Text, codes, to_text, text_eq, text_eq_refl, text_eq→eq}
use compute_web_app.Dataset.{Dataset}
use compute_web_app.Socket.Stream.{AreFrames}
use compute_web_app.Socket.Url.{atoi_from}
use compute_web_app.Socket.Url.Digits.{atoi_from-value}
use compute_web_app.Socket.Url.Endpoint.{to_text-Spells}
use compute_web_app.Aggregate.Server.Merge.{Merges, AllEmpty}
use compute_web_app.Aggregate.Server.Senders.{received}

abbrev pub indices : List (ℕ × List ℕ) → List ℕ
indices [] = []
indices ((i, b) ∷ more) = i ∷ indices more

-- The number of datasets with an id.
abbrev pub count_id : Text → List Dataset → ℕ
count_id id [] = 0
count_id id (ds ∷ dss) = (if text_eq ds.id id then 1 else 0) + count_id id dss

to_text-atoi : (n : ℕ) → n < u32_mod → atoi_from 0 (to_text n) ≡ n
to_text-atoi n h =
    let s = to_text-Spells 10 n (omega arith) (omega arith) (omega arith) in
    rw (s.same ∙ append-nil (s.first ∷ s.more))
      (atoi_from-value 0 (s.first ∷ s.more) s.all_digits ∙ s.number)

-- Two numbers of 32 bits have the same text only if they are the same.
text_eq-to_text : (i j : ℕ) → i < u32_mod → j < u32_mod → text_eq (to_text i) (to_text j) ≡ (i == j)
text_eq-to_text i j h k = elim (Bool-cases (text_eq (to_text i) (to_text j))) [
  | inl same ↦
      let texts = text_eq→eq (to_text i) (to_text j) same in
      let e : i ≡ j = sym (to_text-atoi i h) ∙ ap (atoi_from 0) texts ∙ to_text-atoi j k in
      same ∙ sym ((==_iff i j).1 e)
  | inr other ↦ elim (Bool-cases (i == j)) [
    | inl e ↦
        let texts : text_eq (to_text i) (to_text j) ≡ true =
          subst (λ m. text_eq (to_text i) (to_text m) ≡ true) ((==_iff i j).0 e)
            (text_eq_refl (to_text i)) in
        texts ∙ sym e
    | inr ne ↦ other ∙ sym ne
  ]
]

pub count_id-received :
    (owner : Text) (i : ℕ) (sent : List (ℕ × List ℕ))
    → AreFrames sent
    → i < u32_mod
    → count_id (codes "dataset_" ++ to_text i) (received owner sent) ≡ count i (indices sent)
count_id-received owner i [] fit h = refl
count_id-received owner i ((j, b) ∷ sent) fit h =
    let same = text_eq-to_text j i (omega (arith, fit.0)) h in
    let ih = count_id-received owner i sent fit.2 h in rw (same, ih) refl

count_id-empty :
    (id : Text) (dsss : List (List Dataset)) → AllEmpty dsss → sum_over (count_id id) dsss ≡ 0
count_id-empty id [] h = refl
count_id-empty id (dss ∷ dsss) h = rw h.0 (omega (arith, count_id-empty id dsss h.1))

pub Merges-count_id :
    (id : Text) (q : List Dataset) (dsss : List (List Dataset))
    → Merges dsss q
    → count_id id q ≡ sum_over (count_id id) dsss
Merges-count_id id [] dsss h = sym (count_id-empty id dsss h)
Merges-count_id id (ds ∷ q) dsss (k, dss, at, more) = omega (
  arith,
  Merges-count_id id q (set dsss k dss) more,
  sum_over-set (count_id id) dsss k (ds ∷ dss) dss at,
)

-- Of each of the indices below n there is one dataset.
abbrev pub HasEach : ℕ → List Dataset → Type 0
HasEach zero dss = Unit {0}
HasEach (suc n) dss = (count_id (codes "dataset_" ++ to_text n) dss ≡ 1) × HasEach n dss

pub HasEach-all :
    (n : ℕ) (dss : List Dataset)
    → ((i : ℕ) → i < n → count_id (codes "dataset_" ++ to_text i) dss ≡ 1)
    → HasEach n dss
HasEach-all zero dss h = tt
HasEach-all (suc n) dss h = (h n (omega arith), HasEach-all n dss (λ i l. h i (omega arith)))

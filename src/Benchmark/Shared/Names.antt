-- ===== src/Benchmark/Shared/Names.antt =====
-- The files that are named after the index of a dataset.
use mathlib.Core.List.{append_cancel_left, append_cancel_right}
use compute_web_app.Prelude.{
  ℕ, ◌<◌, ◌≡◌, ◌≢◌, sym, ap, ◌∙◌, inl, inr, [], ◌∷◌, ◌++◌, false, Bool-cases, arith, append-nil,
  refl, true, zero, suc, ltb, ◌+◌, ◌/◌, ◌%◌,
}
use compute_web_app.Prelude.Words.{u32_mod}
use compute_web_app.Prelude.Text.{Text, codes, to_text, decimal_digits, text_eq, text_eq→eq}
use compute_web_app.Exchange.Library.{is_ascii}
use compute_web_app.Socket.Url.Digits.{value, decimal_digits-Spells}

abbrev pub dataset_name : ℕ → Text
dataset_name i = codes "dataset_" ++ to_text i

abbrev pub output_file : ℕ → Text
output_file i = codes "output" ++ codes "/" ++ dataset_name i ++ codes ".raw"

value-to_text : (i : ℕ) → i < u32_mod → value 0 (to_text i) ≡ i
unfolding to_text
value-to_text i h =
    let digits = decimal_digits-Spells 10 10 i [] (omega arith) (omega arith) (omega arith) in
    ap (value 0) (digits.same ∙ append-nil (digits.first ∷ digits.more)) ∙ digits.number

to_text_injective : (i j : ℕ) → i < u32_mod → j < u32_mod → to_text i ≡ to_text j → i ≡ j
to_text_injective i j h k e = sym (value-to_text i h) ∙ ap (value 0) e ∙ value-to_text j k

-- Names that differ in a number alone are different.
pub numbered_ne :
    (before after : Text) (i j : ℕ)
    → i < u32_mod
    → j < u32_mod
    → i ≢ j
    → text_eq (before ++ (to_text i ++ after)) (before ++ (to_text j ++ after)) ≡ false
numbered_ne before after i j h k ne =
    let name : ℕ → Text = λ n. before ++ (to_text n ++ after) in
    elim (Bool-cases (text_eq (name i) (name j))) [
      | inr other ↦ other
      | inl same ↦
          let tails =
            append_cancel_left before (to_text i ++ after) (to_text j ++ after)
              (text_eq→eq (name i) (name j) same) in
          absurd (
            ne
              (to_text_injective i j h k (append_cancel_right (to_text i) (to_text j) after tails)))
    ]

-- Different indices have different files.
pub output_file_ne :
    (i j : ℕ) → i < u32_mod → j < u32_mod → i ≢ j → text_eq (output_file i) (output_file j) ≡ false
output_file_ne = numbered_ne (codes "output/dataset_") (codes ".raw")

decimal_digits-is_ascii :
    (fuel n : ℕ) (acc : Text) → is_ascii acc ≡ true → is_ascii (decimal_digits fuel n acc) ≡ true
unfolding decimal_digits
decimal_digits-is_ascii zero n acc h = h
decimal_digits-is_ascii (suc fuel) n acc h = elim (Bool-cases (ltb n 10)) [
  | inl small ↦
      let last : decimal_digits (suc fuel) n acc ≡ (48 + n) ∷ acc =
        rw (decimal_digits, small) refl in
      rw last (ground arith)
  | inr large ↦
      let more : decimal_digits (suc fuel) n acc
          ≡ decimal_digits fuel (n / 10) ((48 + n % 10) ∷ acc) =
        rw (decimal_digits, large) refl in
      rw more (decimal_digits-is_ascii fuel (n / 10) ((48 + n % 10) ∷ acc) (ground arith))
]

is_ascii-append : (s t : Text) → is_ascii s ≡ true → is_ascii t ≡ true → is_ascii (s ++ t) ≡ true
is_ascii-append [] t h k = k
is_ascii-append (c ∷ s) t h k = ground (arith, is_ascii-append s t)

pub output_file-is_ascii : (i : ℕ) → is_ascii (output_file i) ≡ true
unfolding to_text
output_file-is_ascii i =
    is_ascii-append (to_text i) (codes ".raw") (decimal_digits-is_ascii 10 i [] refl) refl

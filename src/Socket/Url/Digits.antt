-- ===== src/Socket/Url/Digits.antt =====
-- The digits of a number, as the regular expression and `atoi` read them.
use compute_web_app.Prelude.{
  ℕ, zero, suc, ◌+◌, ◌-◌, ◌*◌, ◌/◌, ◌%◌, ◌≤◌, ◌<◌, ◌≡◌, refl, sym, ap, ◌∙◌, [], ◌∷◌, ◌++◌, Bool,
  true, false, ◌||◌, length, ltb, arith, append_assoc, Bool-cases, inl, inr, length-append,
}
use compute_web_app.Prelude.Text.{Text, decimal_digits}
use compute_web_app.Socket.Url.{is_digit, more_digits, matches, digits, atoi_from}

abbrev pub AreDigits : Text → Type 0
AreDigits [] = Unit {0}
AreDigits (c ∷ cs) = (is_digit c ≡ true) × AreDigits cs

-- The number that the digits spell behind m.
abbrev pub value : ℕ → Text → ℕ
value m [] = m
value m (c ∷ cs) = value (m * 10 + (c - b'0')) cs

abbrev pub pow10 : ℕ → ℕ
pow10 zero = 1
pow10 (suc k) = 10 * pow10 k

AreDigits-last : (cs : Text) (c : ℕ) → AreDigits cs → is_digit c ≡ true → AreDigits (cs ++ c ∷ [])
AreDigits-last [] c h k = (k, tt)
AreDigits-last (d ∷ ds) c h k = (h.0, AreDigits-last ds c h.1 k)

value-last : (cs : Text) (m c : ℕ) → value m (cs ++ c ∷ []) ≡ value m cs * 10 + (c - b'0')
value-last [] m c = refl
value-last (d ∷ ds) m c = value-last ds (m * 10 + (d - b'0')) c

is_digit-add : (n : ℕ) → n < 10 → is_digit (b'0' + n) ≡ true
is_digit-add n h = ground arith

-- What the loop for the digits of n puts before `acc`.
pub record Spells (n k : ℕ) (acc text : Text) : Type 0 where
  pub first : ℕ
  pub more : Text
  pub same : text ≡ (first ∷ more) ++ acc
  pub all_digits : AreDigits (first ∷ more)
  pub few : length more < k
  pub number : value 0 (first ∷ more) ≡ n

pub decimal_digits-Spells :
    (fuel k n : ℕ) (acc : Text)
    → 0 < k
    → k ≤ fuel
    → n < pow10 k
    → Spells n k acc (decimal_digits fuel n acc)
unfolding decimal_digits
decimal_digits-Spells zero k n acc h l b = absurd (omega arith)
decimal_digits-Spells (suc fuel) zero n acc h l b = absurd (omega arith)
decimal_digits-Spells (suc fuel) (suc k) n acc h l b = elim (Bool-cases (ltb n 10)) [
  | inl small ↦
      rw (decimal_digits, small)
        (record {
          first = b'0' + n;
          more = [];
          same = refl;
          all_digits = (is_digit-add n (ground arith), tt);
          few = omega arith;
          number = omega arith;
        })
  | inr large ↦
      let big : 10 ≤ n = ground arith in
      let c = b'0' + n % 10 in
      let k_pos : 0 < k = positive k b big in
      let s = decimal_digits-Spells fuel k (n / 10) (c ∷ acc) k_pos (omega arith) (omega arith) in
      rw (decimal_digits, large)
        (record {
          first = s.first;
          more = s.more ++ c ∷ [];
          same = s.same ∙ ap (◌∷◌ s.first) (sym (append_assoc s.more (c ∷ []) acc));
          all_digits = (
            s.all_digits.0,
            AreDigits-last s.more c s.all_digits.1 (is_digit-add (n % 10) (omega arith)),
          );
          few = omega (arith, s.few, length-append s.more (c ∷ []));
          number = omega (arith, value-last s.more (0 * 10 + (s.first - b'0')) c, s.number);
        })
]
  where
    positive : (k : ℕ) → n < pow10 (suc k) → 10 ≤ n → 0 < k
    positive zero b big = absurd (omega arith)
    positive (suc k) b big = omega arith

pub or_true : (a : Bool) → (a || true) ≡ true
or_true true = refl
or_true false = refl

more_digits-match :
    (n : ℕ) (rest : Text → Bool) (ds t : Text)
    → AreDigits ds
    → length ds ≤ n
    → rest t ≡ true
    → more_digits n rest (ds ++ t) ≡ true
unfolding matches
more_digits-match n rest [] [] h l r = r
more_digits-match zero rest [] (c ∷ cs) h l r = r
more_digits-match (suc n) rest [] (c ∷ cs) h l r = rw r refl
more_digits-match zero rest (d ∷ ds) t h l r = absurd (omega arith)
more_digits-match (suc n) rest (d ∷ ds) t h l r =
    rw (h.0, more_digits-match n rest ds t h.1 (omega arith) r) (or_true (rest (d ∷ (ds ++ t))))

pub digits-match :
    (n : ℕ) (rest : Text → Bool) (d : ℕ) (ds t : Text)
    → AreDigits (d ∷ ds)
    → length ds < n
    → rest t ≡ true
    → matches (digits n) rest ((d ∷ ds) ++ t) ≡ true
unfolding matches
digits-match n rest d ds t h l r =
    rw (h.0, more_digits-match (n - 1) rest ds t h.1 (omega arith) r) refl

pub atoi_from-value : (m : ℕ) (ds : Text) → AreDigits ds → atoi_from m ds ≡ value m ds
unfolding atoi_from
atoi_from-value m [] h = refl
atoi_from-value m (d ∷ ds) h = rw h.0 (atoi_from-value (m * 10 + (d - b'0')) ds h.1)

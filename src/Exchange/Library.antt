-- ===== src/Exchange/Library.antt =====
-- The JSON library that data/dataset_exchange_file.cpp calls: values of a type `J`, and texts of a
-- type `C`. A call that throws gives `none`.
use compute_web_app.Prelude.{
  ℕ, ◌≡◌, List, [], ◌∷◌, ◌++◌, ◌↔◌, is_empty, Option, some, Bool, true, false, length, map, ltb,
  ◌&&◌,
}
use compute_web_app.Prelude.Text.{Text, text_eq}

pub record Json (J : Type 0) (C : Type 0) : Type 0 where
  pub null : J
  pub number : ℕ → J
  pub text : Text → J
  -- From a vector or a set of numbers.
  pub numbers : List ℕ → J
  -- `j[key]`, where it is read; `j[key] = value`.
  pub get : Text → J → Option J
  pub set : Text → J → J → Option J
  pub contains : Text → J → Bool
  pub push_back : J → J → Option J
  -- `j[0]`, where it is read; `j.erase(0)`.
  pub first : J → Option J
  pub erase_first : J → Option J
  pub size : J → ℕ
  pub empty : J → Bool
  pub is_null : J → Bool
  pub to_number : J → Option ℕ
  pub to_text : J → Option Text
  pub to_numbers : J → Option (List ℕ)
  pub equal : J → J → Bool
  -- Writing a value throws where a text in it is not UTF-8.
  pub dump : J → Option C
  pub parse : C → Option J

-- Of the letters of ASCII.
abbrev pub is_ascii : Text → Bool
is_ascii [] = true
is_ascii (c ∷ cs) = ltb c 128 && is_ascii cs

-- Its documented behaviour on the values that the code makes. `array` and `IsObject` say what an
-- array of values is, and what counts as an object: null does, as it becomes one.
pub record IsJson {J C : Type 0} (json : Json J C) : Type 1 where
  pub array : List J → J
  pub IsObject : J → Type 0
  -- All texts are UTF-8 and all numbers finite: what the library writes and reads back.
  pub IsPlain : J → Type 0
  pub null_object : IsObject json.null
  pub get_null : (key : Text) → json.get key json.null ≡ some json.null
  pub contains_null : (key : Text) → json.contains key json.null ≡ false
  pub set_object :
      (key : Text) (value j : J)
      → IsObject j
      → (j' : J) × (json.set key value j ≡ some j')
        × IsObject j'
        × (json.get key j' ≡ some value)
        × (json.contains key j' ≡ true)
        × ((other : Text)
            → text_eq other key ≡ false
            → (json.get other j' ≡ json.get other j)
              × (json.contains other j' ≡ json.contains other j))
  pub push_back_null : (x : J) → json.push_back json.null x ≡ some (array (x ∷ []))
  pub push_back_array :
      (xs : List J) (x : J) → json.push_back (array xs) x ≡ some (array (xs ++ x ∷ []))
  pub first_array : (x : J) (xs : List J) → json.first (array (x ∷ xs)) ≡ some x
  pub erase_first_array :
      (x : J) (xs : List J) → json.erase_first (array (x ∷ xs)) ≡ some (array xs)
  pub empty_null : json.empty json.null ≡ true
  pub empty_array : (xs : List J) → json.empty (array xs) ≡ is_empty xs
  pub size_null : json.size json.null ≡ 0
  pub size_array : (xs : List J) → json.size (array xs) ≡ length xs
  pub is_null_null : json.is_null json.null ≡ true
  pub is_null_array : (xs : List J) → json.is_null (array xs) ≡ false
  pub to_number_number : (n : ℕ) → json.to_number (json.number n) ≡ some n
  pub to_text_text : (t : Text) → json.to_text (json.text t) ≡ some t
  pub numbers_array : (ns : List ℕ) → json.numbers ns ≡ array (map json.number ns)
  pub to_numbers_array : (ns : List ℕ) → json.to_numbers (array (map json.number ns)) ≡ some ns
  pub equal_arrays :
      (ms ns : List ℕ)
      → (json.equal (array (map json.number ms)) (array (map json.number ns)) ≡ true) ↔ (ms ≡ ns)
  pub equal_null : json.equal json.null json.null ≡ true
  pub plain_null : IsPlain json.null
  pub plain_number : (n : ℕ) → IsPlain (json.number n)
  pub plain_numbers : (ns : List ℕ) → IsPlain (json.numbers ns)
  pub plain_ascii : (t : Text) → is_ascii t ≡ true → IsPlain (json.text t)
  pub plain_set :
      (key : Text) (value j j' : J)
      → is_ascii key ≡ true
      → IsPlain value
      → IsPlain j
      → json.set key value j ≡ some j'
      → IsPlain j'
  pub plain_get : (key : Text) (j v : J) → IsPlain j → json.get key j ≡ some v → IsPlain v
  pub plain_push_back :
      (j x j' : J) → IsPlain j → IsPlain x → json.push_back j x ≡ some j' → IsPlain j'
  pub plain_erase_first : (j j' : J) → IsPlain j → json.erase_first j ≡ some j' → IsPlain j'
  pub plain_parse : (c : C) (j : J) → json.parse c ≡ some j → IsPlain j
  pub dump_plain : (j : J) → IsPlain j → (c : C) × (json.dump j ≡ some c) × (json.parse c ≡ some j)

-- ===== src/Tests/Documents.antt =====
-- A JSON library for the tests: values as trees, which are their own texts.
use compute_web_app.Prelude.{
  ℕ, suc, ◌≡◌, ◌↔◌, refl, ap, sym, ◌∙◌, List, [], ◌∷◌, ◌++◌, Option, none, some, Bool, true, false,
  is_empty, length, map, if◌then◌else◌,
}
use compute_web_app.Prelude.Text.{Text, text_eq, text_eq_refl, text_eq→eq}
use compute_web_app.Exchange.Library.{Json, IsJson}

mutual
  pub data Value : Type 0 where
    null : Value
    number : ℕ → Value
    text : Text → Value
    array : Values → Value
    object : Fields → Value

  pub data Values : Type 0 where
    end : Values
    value : Value → Values → Values

  pub data Fields : Type 0 where
    no_field : Fields
    field : Text → Value → Fields → Fields

abbrev pub of_list : List Value → Values
of_list [] = end
of_list (v ∷ vs) = value v (of_list vs)

abbrev pub snoc : Values → Value → Values
snoc end x = value x end
snoc (value v vs) x = value v (snoc vs x)

abbrev pub count_values : Values → ℕ
count_values end = 0
count_values (value v vs) = suc (count_values vs)

abbrev pub find : Text → Fields → Value
find key no_field = null
find key (field k v fs) = if text_eq key k then v else find key fs

abbrev pub has : Text → Fields → Bool
has key no_field = false
has key (field k v fs) = if text_eq key k then true else has key fs

abbrev pub get : Text → Value → Option Value
get key null = some null
get key (object fs) = some (find key fs)
get key _ = none

abbrev pub set : Text → Value → Value → Option Value
set key v null = some (object (field key v no_field))
set key v (object fs) = some (object (field key v fs))
set key v _ = none

abbrev pub contains : Text → Value → Bool
contains key (object fs) = has key fs
contains key _ = false

abbrev pub push_back : Value → Value → Option Value
push_back null x = some (array (value x end))
push_back (array vs) x = some (array (snoc vs x))
push_back _ x = none

abbrev pub first : Value → Option Value
first (array (value v vs)) = some v
first _ = none

abbrev pub erase_first : Value → Option Value
erase_first (array (value v vs)) = some (array vs)
erase_first _ = none

abbrev pub size : Value → ℕ
size (array vs) = count_values vs
size _ = 0

abbrev pub empty : Value → Bool
empty null = true
empty (array end) = true
empty _ = false

abbrev pub is_null : Value → Bool
is_null null = true
is_null _ = false

abbrev pub to_number : Value → Option ℕ
to_number (number n) = some n
to_number _ = none

abbrev pub to_text : Value → Option Text
to_text (text t) = some t
to_text _ = none

abbrev pub before : Option ℕ → Option (List ℕ) → Option (List ℕ)
before (some n) (some ns) = some (n ∷ ns)
before (some n) none = none
before none ns = none

abbrev pub all_numbers : Values → Option (List ℕ)
all_numbers end = some []
all_numbers (value v vs) = before (to_number v) (all_numbers vs)

abbrev pub to_numbers : Value → Option (List ℕ)
to_numbers (array vs) = all_numbers vs
to_numbers _ = none

abbrev pub equal_numbers : Option (List ℕ) → Option (List ℕ) → Bool
equal_numbers (some ms) (some ns) = text_eq ms ns
equal_numbers (some ms) none = false
equal_numbers none o = false

abbrev pub equal : Value → Value → Bool
equal null null = true
equal v w = equal_numbers (to_numbers v) (to_numbers w)

abbrev pub documents : Json Value Value
documents = record {
  null = null;
  number = number;
  text = text;
  numbers = λ ns. array (of_list (map number ns));
  get = get;
  set = set;
  contains = contains;
  push_back = push_back;
  first = first;
  erase_first = erase_first;
  size = size;
  empty = empty;
  is_null = is_null;
  to_number = to_number;
  to_text = to_text;
  to_numbers = to_numbers;
  equal = equal;
  dump = some;
  parse = some;
}

pub snoc-of_list : (xs : List Value) (x : Value) → snoc (of_list xs) x ≡ of_list (xs ++ x ∷ [])
snoc-of_list [] x = refl
snoc-of_list (v ∷ xs) x = ap (value v) (snoc-of_list xs x)

pub all_numbers-number : (ns : List ℕ) → all_numbers (of_list (map number ns)) ≡ some ns
all_numbers-number [] = refl
all_numbers-number (n ∷ ns) = rw (all_numbers-number ns) refl

pub count_values-of_list : (xs : List Value) → count_values (of_list xs) ≡ length xs
count_values-of_list [] = refl
count_values-of_list (v ∷ xs) = ap suc (count_values-of_list xs)

pub empty-of_list : (xs : List Value) → empty (array (of_list xs)) ≡ is_empty xs
empty-of_list [] = refl
empty-of_list (v ∷ xs) = refl

abbrev pub IsObject : Value → Type 0
IsObject null = Unit {0}
IsObject (object fs) = Unit {0}
IsObject (number n) = ⊥
IsObject (text t) = ⊥
IsObject (array vs) = ⊥

pub set-IsObject :
    (key : Text) (v j : Value)
    → IsObject j
    → (j' : Value) × (set key v j ≡ some j')
      × IsObject j'
      × (get key j' ≡ some v)
      × (contains key j' ≡ true)
      × ((other : Text)
          → text_eq other key ≡ false
          → (get other j' ≡ get other j) × (contains other j' ≡ contains other j))
set-IsObject key v null h = (
  object (field key v no_field),
  refl,
  tt,
  rw (text_eq_refl key) refl,
  rw (text_eq_refl key) refl,
  λ other ne. (rw ne refl, rw ne refl),
)
set-IsObject key v (object fs) h = (
  object (field key v fs),
  refl,
  tt,
  rw (text_eq_refl key) refl,
  rw (text_eq_refl key) refl,
  λ other ne. (rw ne refl, rw ne refl),
)
set-IsObject key v (number n) h = absurd h
set-IsObject key v (text t) h = absurd h
set-IsObject key v (array vs) h = absurd h

pub equal_arrays :
    (ms ns : List ℕ)
    → (equal (array (of_list (map number ms))) (array (of_list (map number ns))) ≡ true) ↔ (ms ≡ ns)
equal_arrays ms ns =
    rw (all_numbers-number ms, all_numbers-number ns)
      (text_eq→eq ms ns, λ e. ap (λ l. text_eq ms l) (sym e) ∙ text_eq_refl ms)

abbrev pub documents-IsJson : IsJson documents
documents-IsJson = record {
  array = λ xs. array (of_list xs);
  IsObject = IsObject;
  null_object = tt;
  get_null = λ key. refl;
  contains_null = λ key. refl;
  set_object = set-IsObject;
  push_back_null = λ x. refl;
  push_back_array = λ xs x. ap (λ vs. some (array vs)) (snoc-of_list xs x);
  first_array = λ x xs. refl;
  erase_first_array = λ x xs. refl;
  empty_null = refl;
  empty_array = empty-of_list;
  size_null = refl;
  size_array = count_values-of_list;
  is_null_null = refl;
  is_null_array = λ xs. refl;
  to_number_number = λ n. refl;
  to_text_text = λ t. refl;
  numbers_array = λ ns. refl;
  to_numbers_array = all_numbers-number;
  equal_arrays = equal_arrays;
  equal_null = refl;
  IsPlain = λ j. Unit {0};
  plain_null = tt;
  plain_number = λ n. tt;
  plain_numbers = λ ns. tt;
  plain_ascii = λ t h. tt;
  plain_set = λ key v j j' a h k e. tt;
  plain_get = λ key j v h e. tt;
  plain_push_back = λ j x j' h k e. tt;
  plain_erase_first = λ j j' h e. tt;
  plain_parse = λ c j e. tt;
  dump_plain = λ j h. (j, refl, refl);
}

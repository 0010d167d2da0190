-- ===== src/Process/Variant.antt =====
-- process/variant.cpp: values of several types. Of the type `double` the code uses the comparison
-- and the output on a stream.
pub mod Equality
pub mod Print
use compute_web_app.Prelude.{
  ℕ, suc, List, [], ◌∷◌, ◌++◌, Bool, true, false, not, ◌&&◌, ◌==◌, if◌then◌else◌,
}
use compute_web_app.Prelude.Text.{Text, codes, text_eq, to_text}
use compute_web_app.Outcome.{Outcome, ok, raise, bad_conversion}

-- negsuc n is -(n + 1).
pub data ℤ : Type 0 where
  pos negsuc : ℕ → ℤ

abbrev pub int_eq : ℤ → ℤ → Bool
int_eq (pos m) (pos n) = m == n
int_eq (negsuc m) (negsuc n) = m == n
int_eq (pos m) (negsuc n) = false
int_eq (negsuc m) (pos n) = false

abbrev pub int_text : ℤ → Text
int_text (pos n) = to_text n
int_text (negsuc n) = codes "-" ++ to_text (suc n)

pub record Double (D : Type 0) : Type 0 where
  pub equal : D → D → Bool
  pub text : D → Text

-- Of the fields of the class only the one that the type names is used.
mutual
  pub data Variant (D : Type 0) : Type 0 where
    unset : Variant D
    integer : ℤ → Variant D
    decimal : D → Variant D
    string : Text → Variant D
    variants : Variants D → Variant D

  pub data Variants (D : Type 0) : Type 0 where
    end : Variants D
    item : Variant D → Variants D → Variants D

pub data VariantType : Type 0 where
  none_type integer_type decimal_type string_type variants_type : VariantType

module _ {D : Type 0} where
  unfoldable pub get_type : Variant D → VariantType
  get_type unset = none_type
  get_type (integer n) = integer_type
  get_type (decimal x) = decimal_type
  get_type (string s) = string_type
  get_type (variants vs) = variants_type

  unfoldable pub to_integer : Variant D → Outcome ℤ
  to_integer (integer n) = ok n
  to_integer _ = raise bad_conversion

  unfoldable pub to_decimal : Variant D → Outcome D
  to_decimal (decimal x) = ok x
  to_decimal _ = raise bad_conversion

  unfoldable pub to_string : Variant D → Outcome Text
  to_string (string s) = ok s
  to_string _ = raise bad_conversion

  unfoldable pub to_variants : Variant D → Outcome (Variants D)
  to_variants (variants vs) = ok vs
  to_variants _ = raise bad_conversion

  abbrev pub size : Variants D → ℕ
  size end = 0
  size (item v vs) = suc (size vs)

module _ {D : Type 0} (double : Double D) where
  -- operator== of values, and of lists of them: the sizes first, and then every item.
  unfoldable mutual
    pub equal : Variant D → Variant D → Bool
    equal (integer m) (integer n) = int_eq m n
    equal (decimal x) (decimal y) = double.equal x y
    equal (string s) (string t) = text_eq s t
    equal (variants vs) (variants ws) = if size vs == size ws then equal_items vs ws else false
    equal _ _ = false

    -- The loop `ok &= lvalue[i] == rvalue[i]`, on lists of one size.
    pub equal_items : Variants D → Variants D → Bool
    equal_items (item v vs) (item w ws) = equal v w && equal_items vs ws
    equal_items _ _ = true

  unfoldable pub differ : Variants D → Variants D → Bool
  unfolding equal
  differ vs ws = not (if size vs == size ws then equal_items vs ws else false)

  -- operator<<
  unfoldable mutual
    pub print : Variant D → Text
    print unset = codes "!!! Type::None !!!"
    print (integer n) = int_text n
    print (decimal x) = double.text x
    print (string s) = s
    print (variants vs) = print_first vs

    pub print_first : Variants D → Text
    print_first end = []
    print_first (item v vs) = print v ++ print_rest vs

    pub print_rest : Variants D → Text
    print_rest end = []
    print_rest (item v vs) = codes "," ++ print v ++ print_rest vs

  -- The test `entry.first != values.begin()->first` is on the keys.
  serialize_from : Text → Text → List (Text × Variant D) → Text
  serialize_from first prefix [] = []
  serialize_from first prefix ((key, value) ∷ rest) =
      (if not (text_eq key first) then codes " " else [])
      ++ (prefix ++ (key ++ (codes " " ++ print value)))
      ++ serialize_from first prefix rest

  unfoldable pub serialize_values : List (Text × Variant D) → Text → Text
  unfolding serialize_from
  serialize_values [] prefix = []
  serialize_values ((key, value) ∷ rest) prefix = serialize_from key prefix ((key, value) ∷ rest)

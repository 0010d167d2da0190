-- ===== src/Process/Definition/Defaults.antt =====
-- The default values of a definition.
use compute_web_app.Prelude.{
  ◌≡◌, refl, ap, ◌∙◌, sym, List, [], ◌∷◌, Option, none, some, Bool-cases, inl, inr, if◌then◌else◌,
}
use compute_web_app.Prelude.Text.{Text, text_eq}
use compute_web_app.Process.TextMap.{
  insert, lookup, IsSorted, or_else, lookup-insert, or_none, insert-IsSorted, text_lt,
}
use compute_web_app.Process.Variant.{Variant}
use compute_web_app.Process.Definition.{
  Parameter, Definition, new_definition, add_parameter, default_values_from,
  get_default_parameter_values,
}

or_else_assoc {ℓ} :
    {A : Type ℓ} (a b c : Option A) → or_else (or_else a b) c ≡ or_else a (or_else b c)
or_else_assoc none b c = refl
or_else_assoc (some x) b c = refl

module _ {D : Type 0} where
  -- AddParameter for each of these in turn.
  abbrev pub add_all : Definition D → List (Parameter D) → Definition D
  add_all definition [] = definition
  add_all definition (p ∷ ps) = add_all (add_parameter definition p) ps

  -- The first parameter of a name.
  abbrev pub first_named : Text → List (Parameter D) → Option (Parameter D)
  first_named name [] = none
  first_named name (p ∷ ps) = if text_eq p.name name then some p else first_named name ps

  abbrev pub default_of : Option (Parameter D) → Option (Variant D)
  default_of none = none
  default_of (some p) = some p.default_value

  abbrev AreNamed : List (Text × Parameter D) → Type 0
  AreNamed [] = Unit {0}
  AreNamed ((key, p) ∷ rest) = (p.name ≡ key) × AreNamed rest

  insert-AreNamed :
      (p : Parameter D) (m : List (Text × Parameter D)) → AreNamed m → AreNamed (insert p.name p m)
  unfolding insert
  insert-AreNamed p [] h = (refl, tt)
  insert-AreNamed p ((j, q) ∷ rest) h = elim (Bool-cases (text_lt p.name j)) [
    | inl below ↦ rw below (refl, h)
    | inr not_below ↦ elim (Bool-cases (text_lt j p.name)) [
      | inl above ↦ rw (not_below, above) (h.0, insert-AreNamed p rest h.1)
      | inr same ↦ rw (not_below, same) h
    ]
  ]

  default_of-if :
      (name : Text) (p : Parameter D) (o : Option (Parameter D))
      → default_of (if text_eq p.name name then some p else o)
        ≡ or_else (if text_eq p.name name then some p.default_value else none) (default_of o)
  default_of-if name p o = elim (Bool-cases (text_eq p.name name)) [
    | inl same ↦ rw same refl
    | inr other ↦ rw other refl
  ]

  lookup-default_values_from :
      (name : Text) (parameters : List (Text × Parameter D)) (values : List (Text × Variant D))
      → AreNamed parameters
      → IsSorted values
      → lookup name (default_values_from parameters values)
        ≡ or_else (lookup name values) (default_of (lookup name parameters))
  unfolding default_values_from
  lookup-default_values_from name [] values h s = or_none (lookup name values)
  lookup-default_values_from name ((key, p) ∷ rest) values h s =
      let mine : Option (Variant D) = if text_eq p.name name then some p.default_value else none in
      lookup-default_values_from name rest (insert p.name p.default_value values) h.1
        (insert-IsSorted p.name p.default_value values s)
      ∙ ap (λ o. or_else o (default_of (lookup name rest)))
          (lookup-insert name p.name p.default_value values s)
      ∙ or_else_assoc (lookup name values) mine (default_of (lookup name rest))
      ∙ ap (or_else (lookup name values))
          (rw (← h.0) (sym (default_of-if name p (lookup name rest))))

  default_of-or_else :
      (a b : Option (Parameter D))
      → default_of (or_else a b) ≡ or_else (default_of a) (default_of b)
  default_of-or_else none b = refl
  default_of-or_else (some p) b = refl

  default_of-first :
      (name : Text) (p : Parameter D) (o : Option (Parameter D))
      → or_else (default_of (if text_eq p.name name then some p else none)) (default_of o)
        ≡ default_of (if text_eq p.name name then some p else o)
  default_of-first name p o = elim (Bool-cases (text_eq p.name name)) [
    | inl same ↦ rw same refl
    | inr other ↦ rw other refl
  ]

  record Inv (definition : Definition D) : Type 0 where
    sorted : IsSorted definition.parameters
    named : AreNamed definition.parameters

  add_parameter-Inv :
      (definition : Definition D) (p : Parameter D)
      → Inv definition
      → Inv (add_parameter definition p)
  unfolding add_parameter
  add_parameter-Inv definition p inv = record {
    sorted = insert-IsSorted p.name p definition.parameters inv.sorted;
    named = insert-AreNamed p definition.parameters inv.named;
  }

  lookup-add_all :
      (name : Text) (definition : Definition D) (ps : List (Parameter D))
      → Inv definition
      → lookup name (get_default_parameter_values (add_all definition ps))
        ≡ or_else
            (default_of (lookup name definition.parameters))
            (default_of (first_named name ps))
  unfolding get_default_parameter_values add_parameter
  lookup-add_all name definition [] inv =
      lookup-default_values_from name definition.parameters [] inv.named tt ∙ or_none _
  lookup-add_all name definition (p ∷ ps) inv =
      let old = definition.parameters in
      let mine : Option (Parameter D) = if text_eq p.name name then some p else none in
      let later = default_of (first_named name ps) in
      lookup-add_all name (add_parameter definition p) ps (add_parameter-Inv definition p inv)
      ∙ ap (λ o. or_else (default_of o) later) (lookup-insert name p.name p old inv.sorted)
      ∙ ap (λ o. or_else o later) (default_of-or_else (lookup name old) mine)
      ∙ or_else_assoc (default_of (lookup name old)) (default_of mine) later
      ∙ ap (or_else (default_of (lookup name old))) (default_of-first name p (first_named name ps))

  -- The default values of a definition to which parameters were added one by one: under each name
  -- the value of the first parameter that was added with it, and nothing under any other name.
  pub get_default_parameter_values-first :
      (command : Text) (args : List Text) (ps : List (Parameter D)) (name : Text)
      → lookup name (get_default_parameter_values (add_all (new_definition command args) ps))
        ≡ default_of (first_named name ps)
  get_default_parameter_values-first command args ps name =
      lookup-add_all name (new_definition command args) ps (record { sorted = tt; named = tt })

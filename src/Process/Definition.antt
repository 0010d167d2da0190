-- ===== src/Process/Definition.antt =====
-- process/definition.cpp: the command of a process, its arguments and its parameters.
pub mod Defaults
use compute_web_app.Prelude.{ℕ, zero, suc, ◌≡◌, refl, Option, none, List, [], ◌∷◌}
use compute_web_app.Prelude.Text.{Text}
use compute_web_app.Process.TextMap.{insert}
use compute_web_app.Process.Variant.{Variant}

pub record Parameter (D : Type 0) : Type 0 where
  pub name : Text
  pub description : Text
  pub default_value : Variant D

pub record Definition (D : Type 0) : Type 0 where
  pub command : Text
  pub args : List Text
  pub parameters : List (Text × Parameter D)

module _ {D : Type 0} where
  -- Parameter::operator=, which assigns a copy by another call of itself. `none` means that the fuel
  -- ran out.
  assign_parameter : ℕ → Parameter D → Parameter D → Option (Parameter D)
  assign_parameter zero lvalue rvalue = none
  assign_parameter (suc fuel) lvalue rvalue = assign_parameter fuel lvalue (record {
    name = rvalue.name;
    description = rvalue.description;
    default_value = rvalue.default_value;
  })

  -- An assignment of parameters does not end.
  assign_parameter_diverges :
      (fuel : ℕ) (lvalue rvalue : Parameter D) → assign_parameter fuel lvalue rvalue ≡ none
  unfolding assign_parameter
  assign_parameter_diverges zero lvalue rvalue = refl
  assign_parameter_diverges (suc fuel) lvalue rvalue = assign_parameter_diverges fuel lvalue _

  abbrev pub new_definition : Text → List Text → Definition D
  new_definition command args = record { command = command; args = args; parameters = [] }

  unfoldable pub add_parameter : Definition D → Parameter D → Definition D
  unfolding insert
  add_parameter definition parameter = record definition {
    parameters = insert parameter.name parameter definition.parameters;
  }

  -- The loop of GetDefaultParameterValues.
  pub default_values_from :
      List (Text × Parameter D) → List (Text × Variant D) → List (Text × Variant D)
  default_values_from [] values = values
  default_values_from ((key, parameter) ∷ rest) values =
      default_values_from rest (insert parameter.name parameter.default_value values)

  unfoldable pub get_default_parameter_values : Definition D → List (Text × Variant D)
  unfolding default_values_from
  get_default_parameter_values definition = default_values_from definition.parameters []

-- ===== src/Tests/Processes.antt =====
-- The theorems on the process library at concrete inputs. Decimals are numbers here.
use compute_web_app.Prelude.{ℕ, ◌≡◌, ◌↔◌, refl, List, [], ◌∷◌, some, true, ◌==◌, map}
use compute_web_app.Prelude.Text.{Text, codes, to_text}
use compute_web_app.Process.TextMap.{lookup}
use compute_web_app.Process.Variant.{
  pos, Double, Variant, unset, integer, variants, decimal, end, item, Variants, equal,
  serialize_values,
}
use compute_web_app.Process.Variant.Equality.{IsComparable, equal_self}
use compute_web_app.Process.Variant.Print.{join, assignment, serialize_values-join}
use compute_web_app.Process.Definition.{Parameter, new_definition, get_default_parameter_values}
use compute_web_app.Process.Definition.Defaults.{add_all, get_default_parameter_values-first}
use compute_web_app.Process.Worker.{file_server, socket_server, Worker}

abbrev pub number : Double ℕ
number = record { equal = λ x y. x == y; text = to_text }

abbrev two_items : Variants ℕ
two_items = item (integer (pos 3)) (item unset end)

equal_self_example :
    (equal number (variants two_items) (variants two_items) ≡ true)
    ↔ IsComparable number (variants two_items)
equal_self_example = equal_self number (variants two_items)

abbrev four : Variant ℕ
four = decimal 4

serialize_values-join_example :
    serialize_values number
      ((codes "a", integer (pos 3)) ∷ (codes "b", decimal 4) ∷ [])
      (codes "--")
    ≡ join (codes " ") (
        map
          (assignment number (codes "--"))
          ((codes "a", integer (pos 3)) ∷ (codes "b", decimal 4) ∷ []))
serialize_values-join_example =
    serialize_values-join number (codes "a") (codes "--") (integer (pos 3))
      ((codes "b", decimal 4) ∷ []) (refl, tt)

abbrev parameter : Text → ℕ → Parameter ℕ
parameter name n = record { name = name; description = []; default_value = decimal n }

abbrev two_parameters : List (Parameter ℕ)
two_parameters = parameter (codes "b") 1 ∷ parameter (codes "a") 2 ∷ parameter (codes "b") 3 ∷ []

get_default_parameter_values-first_example :
    lookup
      (codes "b")
      (get_default_parameter_values (add_all (new_definition (codes "cmd") []) two_parameters))
    ≡ some (decimal 1)
get_default_parameter_values-first_example =
    get_default_parameter_values-first (codes "cmd") [] two_parameters (codes "b")

abbrev one_worker : Worker ℕ
one_worker = record {
  definition = new_definition (codes "cmd") (codes "-v" ∷ []);
  parameter_values = (codes "a", decimal 2) ∷ [];
  supplier = record { class = file_server; info = codes "in.json" };
  aggregator = record { class = socket_server; info = codes "*:80" };
}

-- ===== src/Benchmark/Main.antt =====
-- process/benchmark/benchmark_main.cpp: the main program's command line, its input data, and the
-- workers that it launches.
pub mod Launch
pub mod Generate
use compute_web_app.Prelude.{ℕ, zero, suc, List, [], ◌∷◌, ◌++◌, Bool, true, false, if◌then◌else◌}
use compute_web_app.Prelude.Text.{Text, codes, text_eq, to_text}
use compute_web_app.Outcome.{Outcome, ok, exits, fault, ◌>>=◌}
use compute_web_app.Dataset.{Data, new_data, new_dataset, set_id, add_dataset}
use compute_web_app.Process.Definition.{Definition, new_definition}
use compute_web_app.Process.Worker.{ServerClass, file_server, socket_server, Worker}
use compute_web_app.Benchmark.{on_flag}

pub record MainOptions (I : Type 0) : Type 0 where
  pub sup_type : Text
  pub agg_type : Text
  pub worker_count : I
  pub generate_files : Bool
  pub datasets : I
  pub dataset_height : I
  pub algorithm : I

module _ {I : Type 0} (int : ℕ → I) (atoi : Text → I) where
  abbrev pub default_main_options : MainOptions I
  default_main_options = record {
    sup_type = codes "socket";
    agg_type = codes "socket";
    worker_count = int 2;
    generate_files = false;
    datasets = int 20;
    dataset_height = int 512;
    algorithm = int 0;
  }

  -- The body of the loop over the arguments.
  unfoldable pub read_main_option : Text → List Text → MainOptions I → MainOptions I
  read_main_option argument rest o0 =
      let o1 =
        on_flag (codes "--cwa-sup") argument rest (λ value o. record o { sup_type = value }) o0 in
      let o2 =
        on_flag (codes "--cwa-agg") argument rest (λ value o. record o { agg_type = value }) o1 in
      let o3 =
        on_flag (codes "--workers") argument rest
          (λ value o. record o { worker_count = atoi value }) o2 in
      let o4 =
        if text_eq argument (codes "--generate") then record o3 { generate_files = true } else o3 in
      let o5 =
        on_flag (codes "--datasets") argument rest (λ value o. record o { datasets = atoi value })
          o4 in
      let o6 =
        on_flag (codes "--dataset-height") argument rest
          (λ value o. record o { dataset_height = atoi value }) o5 in
      on_flag (codes "--algorithm") argument rest (λ value o. record o { algorithm = atoi value })
        o6

  unfoldable pub read_main_options : List Text → MainOptions I → MainOptions I
  unfolding read_main_option
  read_main_options [] o = o
  read_main_options (argument ∷ rest) o = read_main_options rest (read_main_option argument rest o)

-- The loop that fills the input data, for n datasets from number i on.
unfoldable pub fill_input : ℕ → ℕ → Data → Data
unfolding add_dataset set_id
fill_input zero i target = target
fill_input (suc n) i target =
    fill_input n (suc i) (add_dataset target (set_id new_dataset (codes "dataset_" ++ to_text i)))

unfoldable pub input_data : ℕ → Data
unfolding fill_input
input_data n = fill_input n 0 (new_data (codes "input"))

-- Any other type ends the program.
unfoldable pub check_type : Text → Outcome (Unit {0})
check_type type =
    if text_eq type (codes "socket")
    then ok tt
    else (if text_eq type (codes "file") then ok tt else exits)

-- The class of a server for its type, and what it is bound to. With another type the pointer to the
-- server stays null, and Bind is called on it.
unfoldable pub server_class : Text → Text → Outcome (ServerClass × Text)
server_class type file =
    if text_eq type (codes "socket")
    then ok (socket_server, codes "*:*")
    else (if text_eq type (codes "file") then ok (file_server, file) else fault)

unfoldable pub benchmark_definition : {D : Type 0} → Text → Definition D
benchmark_definition algorithm =
    new_definition (codes "./CwaProcessBenchmarkWorker")
      (codes "-q" ∷ codes "--algorithm" ∷ algorithm ∷ [])

-- What is bound, in order: the supplier, and the aggregator.
unfoldable pub choose_servers :
    {I : Type 0} → MainOptions I → Outcome ((ServerClass × Text) × (ServerClass × Text))
unfolding check_type server_class
choose_servers o = do
  _ ← check_type o.sup_type
  _ ← check_type o.agg_type
  supplier ← server_class o.sup_type (codes "supplier.json")
  aggregator ← server_class o.agg_type (codes "aggregator.json")
  ok (supplier, aggregator)

-- A worker, with the infos of the servers once they are bound.
unfoldable pub benchmark_worker :
    {D I : Type 0} → (I → Text) → MainOptions I → ServerClass → Text → ServerClass → Text → Worker D
unfolding benchmark_definition
benchmark_worker int_text o sup_class sup_info agg_class agg_info = record {
  definition = benchmark_definition (int_text o.algorithm);
  parameter_values = [];
  supplier = record { class = sup_class; info = sup_info };
  aggregator = record { class = agg_class; info = agg_info };
}

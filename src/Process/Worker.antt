-- ===== src/Process/Worker.antt =====
-- process/worker.cpp, process/worker_multi_process.cpp and process/worker_multi_thread.cpp: what a
-- worker is told of the servers when it is launched.
pub mod Arguments
use compute_web_app.Prelude.{ℕ, List, [], ◌∷◌, ◌++◌, Option}
use compute_web_app.Prelude.Text.{Text, codes}
use compute_web_app.Process.Variant.{Double, Variant, print}
use compute_web_app.Process.Definition.{Definition}

-- The class of a server, as the `dynamic_cast`s find it, and its GetInfo.
pub data ServerClass : Type 0 where
  file_server socket_server other_server : ServerClass

pub record Server : Type 0 where
  pub class : ServerClass
  pub info : Text

pub record Worker (D : Type 0) : Type 0 where
  pub definition : Definition D
  pub parameter_values : List (Text × Variant D)
  pub supplier : Server
  pub aggregator : Server

unfoldable pub server_type : ServerClass → Text
server_type file_server = codes "file"
server_type socket_server = codes "socket"
server_type other_server = []

-- What the run function of a worker thread is called with.
unfoldable pub thread_arguments : {D : Type 0} → Worker D → Text × Text × Text × Text
unfolding server_type
thread_arguments worker = (
  server_type worker.supplier.class,
  worker.supplier.info,
  server_type worker.aggregator.class,
  worker.aggregator.info,
)

module _ {D : Type 0} (double : Double D) where
  unfoldable pub parameter_arguments : List (Text × Variant D) → List Text
  parameter_arguments [] = []
  parameter_arguments ((key, value) ∷ rest) = key ∷ print double value ∷ parameter_arguments rest

  unfoldable pub cwa_arguments : Worker D → List Text
  unfolding server_type
  cwa_arguments worker =
      codes "--cwa-sup-type"
      ∷ server_type worker.supplier.class
      ∷ codes "--cwa-sup-info"
      ∷ worker.supplier.info
      ∷ codes "--cwa-agg-type"
      ∷ server_type worker.aggregator.class
      ∷ codes "--cwa-agg-info"
      ∷ worker.aggregator.info
      ∷ []

  unfoldable pub process_arguments : Worker D → List Text
  unfolding parameter_arguments cwa_arguments
  process_arguments worker =
      (worker.definition.args ++ parameter_arguments worker.parameter_values)
      ++ cwa_arguments worker

  -- The process library's `launch` gives a process, or nothing where it throws a SystemException,
  -- which is logged: then no process is kept.
  unfoldable pub launch : (Text → List Text → Option ℕ) → Worker D → Option ℕ
  unfolding process_arguments
  launch launch_process worker = launch_process worker.definition.command (process_arguments worker)

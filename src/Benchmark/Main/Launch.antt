-- ===== src/Benchmark/Main/Launch.antt =====
-- A worker that is launched for the servers uses the clients that belong to them.
use compute_web_app.Prelude.{
  ◌∙◌, Bool-cases, ◌⊎◌, inl, inr, ◌≡◌, refl, sym, ap, Option, none, some, false,
}
use compute_web_app.Prelude.Text.{Text, codes, text_eq, text_eq→eq}
use compute_web_app.Outcome.{Outcome, ok, exits, ◌>>=◌}
use compute_web_app.Process.Variant.{Double}
use compute_web_app.Process.Worker.{
  file_server, socket_server, other_server, ServerClass, Worker, server_type, process_arguments,
  thread_arguments,
}
use compute_web_app.Benchmark.{
  WorkerOptions, ClientClass, file_client, socket_client, read_options, client_class,
  choose_clients,
}
use compute_web_app.Benchmark.Main.{
  MainOptions, check_type, server_class, choose_servers, benchmark_worker,
}
use compute_web_app.Benchmark.Arguments.{read_options-process_arguments}

-- The client class for a server class; there is none for another class.
abbrev pub client_of : ServerClass → Outcome ClientClass
client_of file_server = ok file_client
client_of socket_server = ok socket_client
client_of other_server = exits

abbrev pub output_of : ServerClass → Option Text
output_of file_server = some (codes "output")
output_of socket_server = none
output_of other_server = none

by_types :
    {I : Type 0} (o : WorkerOptions I) (sup agg : ServerClass)
    → o.sup_type ≡ server_type sup
    → o.agg_type ≡ server_type agg
    → choose_clients o ≡ (do
      aggregator ← client_of sup
      supplier ← client_of agg
      ok (aggregator, supplier, output_of agg))
unfolding choose_clients client_class server_type
by_types o file_server file_server h k = rw (h, k) refl
by_types o file_server socket_server h k = rw (h, k) refl
by_types o file_server other_server h k = rw (h, k) refl
by_types o socket_server file_server h k = rw (h, k) refl
by_types o socket_server socket_server h k = rw (h, k) refl
by_types o socket_server other_server h k = rw (h, k) refl
by_types o other_server agg h k = rw h refl

-- The clients that a launched worker chooses, by the classes of the servers.
choose_clients-process_arguments :
    {D I : Type 0} (double : Double D) (atoi : Text → I) (worker : Worker D) (o : WorkerOptions I)
    → text_eq worker.supplier.info (codes "--cwa-sup-type") ≡ false
    → text_eq worker.supplier.info (codes "--cwa-sup-info") ≡ false
    → choose_clients (read_options atoi (process_arguments double worker) o) ≡ (do
      aggregator ← client_of worker.supplier.class
      supplier ← client_of worker.aggregator.class
      ok (aggregator, supplier, output_of worker.aggregator.class))
unfolding thread_arguments
choose_clients-process_arguments double atoi worker o h k =
    let same = read_options-process_arguments double atoi worker o h k in
    by_types (read_options atoi (process_arguments double worker) o) worker.supplier.class
      worker.aggregator.class (ap (λ (t : Text × Text × Text × Text). t.0) same)
      (ap (λ (t : Text × Text × Text × Text). t.2) same)

-- Neither of the two types that the main program knows.
abbrev pub IsUnknown : Text → Type 0
IsUnknown type = (text_eq type (codes "socket") ≡ false) × (text_eq type (codes "file") ≡ false)

-- A type is unknown, or is that of a server that is made.
type_cases :
    (type file : Text)
    → (IsUnknown type × (check_type type ≡ exits))
      ⊎ ((class : ServerClass) × (url : Text) × (check_type type ≡ ok tt)
          × (server_class type file ≡ ok (class, url))
          × (server_type class ≡ type)
          × ((client : ClientClass) × (client_of class ≡ ok client)))
unfolding check_type server_class server_type
type_cases type file = elim (Bool-cases (text_eq type (codes "socket"))) [
  | inl socket ↦ inr (
    socket_server,
    codes "*:*",
    rw socket refl,
    rw socket refl,
    sym (text_eq→eq type (codes "socket") socket),
    (socket_client, refl),
  )
  | inr no_socket ↦ elim (Bool-cases (text_eq type (codes "file"))) [
    | inl is_file ↦ inr (
      file_server,
      file,
      rw (no_socket, is_file) refl,
      rw (no_socket, is_file) refl,
      sym (text_eq→eq type (codes "file") is_file),
      (file_client, refl),
    )
    | inr no_file ↦ inl ((no_socket, no_file), rw (no_socket, no_file) refl)
  ]
]

-- The benchmark's main program, where the info of the supplier is neither of the flags
-- `--cwa-sup-type` and `--cwa-sup-info`. Either the type of the supplier or that of the aggregator is
-- neither `socket` nor `file`, and the program ends; or it makes servers of these types, and a worker,
-- with the command line that it is launched with, does not end, and makes an aggregator client for the
-- class of the supplier and a supplier client for the class of the aggregator, with output files
-- exactly if the aggregator is a file server.
pub choose_servers-choose_clients :
    {D I J : Type 0} (double : Double D) (int_text : I → Text) (atoi : Text → J) (o : MainOptions I)
    (worker_defaults : WorkerOptions J) (sup_info agg_info : Text)
    → text_eq sup_info (codes "--cwa-sup-type") ≡ false
    → text_eq sup_info (codes "--cwa-sup-info") ≡ false
    → ((choose_servers o ≡ exits) × (IsUnknown o.sup_type ⊎ IsUnknown o.agg_type))
      ⊎ ((sup_class agg_class : ServerClass) × (sup_url agg_url : Text) × (choose_servers o
            ≡ ok ((sup_class, sup_url), (agg_class, agg_url)))
          × (server_type sup_class ≡ o.sup_type)
          × (server_type agg_class ≡ o.agg_type)
          × ((aggregator supplier : ClientClass) × (client_of sup_class ≡ ok aggregator)
              × (client_of agg_class ≡ ok supplier)
              × (choose_clients (
                    read_options atoi
                      (process_arguments double
                        (benchmark_worker int_text o sup_class sup_info agg_class agg_info))
                      worker_defaults)
                  ≡ ok (aggregator, supplier, output_of agg_class))))
unfolding choose_servers benchmark_worker
choose_servers-choose_clients double int_text atoi o worker_defaults sup_info agg_info h k =
    elim (type_cases o.sup_type (codes "supplier.json")) [
      | inl (unknown, ends) ↦ inl (rw ends refl, inl unknown)
      | inr (sup_class, sup_url, goes_on, made, same, (aggregator, a)) ↦
          elim (type_cases o.agg_type (codes "aggregator.json")) [
            | inl (unknown, ends) ↦ inl (rw (goes_on, ends) refl, inr unknown)
            | inr (agg_class, agg_url, goes_on', made', same', (supplier, b)) ↦
                let worker = benchmark_worker int_text o sup_class sup_info agg_class agg_info in
                inr (
                  sup_class,
                  agg_class,
                  sup_url,
                  agg_url,
                  rw (goes_on, goes_on', made, made') refl,
                  same,
                  same',
                  (
                    aggregator,
                    supplier,
                    a,
                    b,
                    choose_clients-process_arguments double atoi worker worker_defaults h k
                        ∙ rw (a, b) refl,
                  ),
                )
          ]
    ]

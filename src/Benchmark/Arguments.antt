-- ===== src/Benchmark/Arguments.antt =====
-- The command line that a launched worker process gets, as the benchmark's worker reads it.
use compute_web_app.Prelude.{◌≡◌, refl, ap, ◌∙◌, List, [], ◌∷◌, ◌++◌, false, Bool-cases, inl, inr}
use compute_web_app.Prelude.Text.{Text, codes, text_eq}
use compute_web_app.Process.Variant.{Double}
use compute_web_app.Process.Worker.{
  Worker, server_type, thread_arguments, parameter_arguments, cwa_arguments, process_arguments,
}
use compute_web_app.Process.Worker.Arguments.{server_type-IsPlain}
use compute_web_app.Benchmark.{WorkerOptions, on_flag, read_option, read_options}

-- The argument behind the last of these flags that has one behind it, or `old`.
abbrev pub last_after : Text → List Text → Text → Text
last_after flag [] old = old
last_after flag (argument ∷ rest) old =
    last_after flag rest (on_flag flag argument rest (λ value _. value) old)

module _ {O : Type 0} (flag argument : Text) (f : O → Text) (change : Text → O → O) where
  on_flag-other :
      ((value : Text) (o : O) → f (change value o) ≡ f o)
      → (rest : List Text) (o : O) → f (on_flag flag argument rest change o) ≡ f o
  on_flag-other h [] o = refl
  on_flag-other h (value ∷ rest) o = elim (Bool-cases (text_eq argument flag)) [
    | inl same ↦ rw same (h value o)
    | inr other ↦ rw other refl
  ]

  on_flag-own :
      ((value : Text) (o : O) → f (change value o) ≡ value)
      → (rest : List Text) (o : O)
      → f (on_flag flag argument rest change o)
        ≡ on_flag flag argument rest (λ value _. value) (f o)
  on_flag-own h [] o = refl
  on_flag-own h (value ∷ rest) o = elim (Bool-cases (text_eq argument flag)) [
    | inl same ↦ rw same (h value o)
    | inr other ↦ rw other refl
  ]

module _ {I : Type 0} (atoi : Text → I) where
  read_option-sup_type :
      (a : Text) (rest : List Text) (o : WorkerOptions I)
      → (read_option atoi a rest o).sup_type
        ≡ on_flag (codes "--cwa-sup-type") a rest (λ value _. value) o.sup_type
  unfolding read_option
  read_option-sup_type a rest o =
      let field = λ (o : WorkerOptions I). o.sup_type in
      on_flag-other _ a field _ (λ v o. refl) rest _
      ∙ on_flag-other _ a field _ (λ v o. refl) rest _
      ∙ on_flag-other _ a field _ (λ v o. refl) rest _
      ∙ on_flag-other _ a field _ (λ v o. refl) rest _
      ∙ on_flag-own _ a field _ (λ v o. refl) rest _

  read_option-sup_info :
      (a : Text) (rest : List Text) (o : WorkerOptions I)
      → (read_option atoi a rest o).sup_info
        ≡ on_flag (codes "--cwa-sup-info") a rest (λ value _. value) o.sup_info
  unfolding read_option
  read_option-sup_info a rest o =
      let field = λ (o : WorkerOptions I). o.sup_info in
      on_flag-other _ a field _ (λ v o. refl) rest _
      ∙ on_flag-other _ a field _ (λ v o. refl) rest _
      ∙ on_flag-other _ a field _ (λ v o. refl) rest _
      ∙ on_flag-own _ a field _ (λ v o. refl) rest _
      ∙ ap (on_flag (codes "--cwa-sup-info") a rest (λ value _. value))
          (on_flag-other _ a field _ (λ v o. refl) rest _)

  read_option-agg_type :
      (a : Text) (rest : List Text) (o : WorkerOptions I)
      → (read_option atoi a rest o).agg_type
        ≡ on_flag (codes "--cwa-agg-type") a rest (λ value _. value) o.agg_type
  unfolding read_option
  read_option-agg_type a rest o =
      let field = λ (o : WorkerOptions I). o.agg_type in
      on_flag-other _ a field _ (λ v o. refl) rest _
      ∙ on_flag-other _ a field _ (λ v o. refl) rest _
      ∙ on_flag-own _ a field _ (λ v o. refl) rest _
      ∙ ap (on_flag (codes "--cwa-agg-type") a rest (λ value _. value)) (
          on_flag-other _ a field _ (λ v o. refl) rest _
          ∙ on_flag-other _ a field _ (λ v o. refl) rest _)

  read_option-agg_info :
      (a : Text) (rest : List Text) (o : WorkerOptions I)
      → (read_option atoi a rest o).agg_info
        ≡ on_flag (codes "--cwa-agg-info") a rest (λ value _. value) o.agg_info
  unfolding read_option
  read_option-agg_info a rest o =
      let field = λ (o : WorkerOptions I). o.agg_info in
      on_flag-other _ a field _ (λ v o. refl) rest _
      ∙ on_flag-own _ a field _ (λ v o. refl) rest _
      ∙ ap (on_flag (codes "--cwa-agg-info") a rest (λ value _. value)) (
          on_flag-other _ a field _ (λ v o. refl) rest _
          ∙ on_flag-other _ a field _ (λ v o. refl) rest _
          ∙ on_flag-other _ a field _ (λ v o. refl) rest _)

  read_options-sup_type :
      (args : List Text) (o : WorkerOptions I)
      → (read_options atoi args o).sup_type ≡ last_after (codes "--cwa-sup-type") args o.sup_type
  unfolding read_options
  read_options-sup_type [] o = refl
  read_options-sup_type (a ∷ rest) o =
      read_options-sup_type rest (read_option atoi a rest o)
      ∙ ap (last_after (codes "--cwa-sup-type") rest) (read_option-sup_type a rest o)

  read_options-sup_info :
      (args : List Text) (o : WorkerOptions I)
      → (read_options atoi args o).sup_info ≡ last_after (codes "--cwa-sup-info") args o.sup_info
  unfolding read_options
  read_options-sup_info [] o = refl
  read_options-sup_info (a ∷ rest) o =
      read_options-sup_info rest (read_option atoi a rest o)
      ∙ ap (last_after (codes "--cwa-sup-info") rest) (read_option-sup_info a rest o)

  read_options-agg_type :
      (args : List Text) (o : WorkerOptions I)
      → (read_options atoi args o).agg_type ≡ last_after (codes "--cwa-agg-type") args o.agg_type
  unfolding read_options
  read_options-agg_type [] o = refl
  read_options-agg_type (a ∷ rest) o =
      read_options-agg_type rest (read_option atoi a rest o)
      ∙ ap (last_after (codes "--cwa-agg-type") rest) (read_option-agg_type a rest o)

  read_options-agg_info :
      (args : List Text) (o : WorkerOptions I)
      → (read_options atoi args o).agg_info ≡ last_after (codes "--cwa-agg-info") args o.agg_info
  unfolding read_options
  read_options-agg_info [] o = refl
  read_options-agg_info (a ∷ rest) o =
      read_options-agg_info rest (read_option atoi a rest o)
      ∙ ap (last_after (codes "--cwa-agg-info") rest) (read_option-agg_info a rest o)

-- What stands before only changes what is remembered.
last_after-append :
    (flag : Text) (xs ys : List Text) (old : Text)
    → (old' : Text) × (last_after flag (xs ++ ys) old ≡ last_after flag ys old')
last_after-append flag [] ys old = (old, refl)
last_after-append flag (x ∷ xs) ys old =
    last_after-append flag xs ys (on_flag flag x (xs ++ ys) (λ value _. value) old)

-- Where the info of the supplier is neither of the flags `--cwa-sup-type` and `--cwa-sup-info`: what
-- the benchmark's worker reads from the command line of a launched worker process is what the
-- function of a worker thread is called with, whatever the arguments of the definition and the
-- parameters are.
pub read_options-process_arguments :
    {D I : Type 0} (double : Double D) (atoi : Text → I) (worker : Worker D) (o : WorkerOptions I)
    → text_eq worker.supplier.info (codes "--cwa-sup-type") ≡ false
    → text_eq worker.supplier.info (codes "--cwa-sup-info") ≡ false
    → let options = read_options atoi (process_arguments double worker) o in
      (options.sup_type, options.sup_info, options.agg_type, options.agg_info)
      ≡ thread_arguments worker
unfolding process_arguments thread_arguments cwa_arguments
read_options-process_arguments double atoi worker o h k =
    let before = worker.definition.args ++ parameter_arguments double worker.parameter_values in
    let arguments = process_arguments double worker in
    let cwa = cwa_arguments double worker in
    let s = server_type-IsPlain worker.supplier.class in
    let a = server_type-IsPlain worker.aggregator.class in
    let sup_type : (read_options atoi arguments o).sup_type ≡ server_type worker.supplier.class =
      read_options-sup_type atoi arguments o
      ∙ (last_after-append (codes "--cwa-sup-type") before cwa o.sup_type).1
      ∙ rw (s.0, h, a.0) refl in
    let sup_info : (read_options atoi arguments o).sup_info ≡ worker.supplier.info =
      read_options-sup_info atoi arguments o
      ∙ (last_after-append (codes "--cwa-sup-info") before cwa o.sup_info).1
      ∙ rw (k, a.1) refl in
    let agg_type : (read_options atoi arguments o).agg_type ≡ server_type worker.aggregator.class =
      read_options-agg_type atoi arguments o
      ∙ (last_after-append (codes "--cwa-agg-type") before cwa o.agg_type).1
      ∙ rw (a.2) refl in
    let agg_info : (read_options atoi arguments o).agg_info ≡ worker.aggregator.info =
      read_options-agg_info atoi arguments o
      ∙ (last_after-append (codes "--cwa-agg-info") before cwa o.agg_info).1 in
    rw (sup_type, sup_info, agg_type, agg_info) refl

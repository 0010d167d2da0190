-- ===== src/Process/Worker/Arguments.antt =====
-- What a worker process reads from its command line is what a worker thread is called with.
use compute_web_app.Prelude.{
  ◌≡◌, refl, ◌∙◌, List, [], ◌∷◌, ◌++◌, Option, none, some, false, if◌then◌else◌,
}
use compute_web_app.Prelude.Text.{Text, codes, text_eq}
use compute_web_app.Process.Variant.{Double}
use compute_web_app.Process.Worker.{
  file_server, socket_server, other_server, ServerClass, Worker, server_type, thread_arguments,
  parameter_arguments, cwa_arguments, process_arguments,
}

-- The argument behind the first one that is this flag.
abbrev pub value_after : Text → List Text → Option Text
value_after flag [] = none
value_after flag (x ∷ []) = none
value_after flag (x ∷ y ∷ rest) = if text_eq x flag then some y else value_after flag (y ∷ rest)

-- Not one of the four flags.
abbrev pub IsPlain : Text → Type 0
IsPlain t =
    (text_eq t (codes "--cwa-sup-type") ≡ false)
    × (text_eq t (codes "--cwa-sup-info") ≡ false)
    × (text_eq t (codes "--cwa-agg-type") ≡ false)
    × (text_eq t (codes "--cwa-agg-info") ≡ false)

abbrev pub ArePlain : List Text → Type 0
ArePlain [] = Unit {0}
ArePlain (t ∷ ts) = IsPlain t × ArePlain ts

abbrev Without : Text → List Text → Type 0
Without flag [] = Unit {0}
Without flag (t ∷ ts) = (text_eq t flag ≡ false) × Without flag ts

value_after-Without :
    (flag : Text) (ts : List Text) (y y' : Text) (rest : List Text)
    → Without flag ts
    → value_after flag (ts ++ y ∷ y' ∷ rest) ≡ value_after flag (y ∷ y' ∷ rest)
value_after-Without flag [] y y' rest h = refl
value_after-Without flag (t ∷ []) y y' rest h = rw h.0 refl
value_after-Without flag (t ∷ t' ∷ ts) y y' rest h =
    rw h.0 (value_after-Without flag (t' ∷ ts) y y' rest h.1)

ArePlain-Without :
    (ts : List Text)
    → ArePlain ts
    → Without (codes "--cwa-sup-type") ts
      × Without (codes "--cwa-sup-info") ts
      × Without (codes "--cwa-agg-type") ts
      × Without (codes "--cwa-agg-info") ts
ArePlain-Without [] h = (tt, tt, tt, tt)
ArePlain-Without (t ∷ ts) ((a, b, c, d), h) =
    let (p, q, u, v) = ArePlain-Without ts h in ((a, p), (b, q), (c, u), (d, v))

pub server_type-IsPlain : (class : ServerClass) → IsPlain (server_type class)
unfolding server_type
server_type-IsPlain file_server = (refl, refl, refl, refl)
server_type-IsPlain socket_server = (refl, refl, refl, refl)
server_type-IsPlain other_server = (refl, refl, refl, refl)

-- Where neither an argument of the definition, nor the name or text of a parameter, nor the info of
-- the supplier is one of the four flags: the values behind the flags on the command line of a worker
-- process are what the function of a worker thread is called with.
pub process_arguments-thread_arguments :
    {D : Type 0} (double : Double D) (worker : Worker D)
    → ArePlain (worker.definition.args ++ parameter_arguments double worker.parameter_values)
    → IsPlain worker.supplier.info
    → let arguments = process_arguments double worker in
      let (sup_type, sup_info, agg_type, agg_info) = thread_arguments worker in
      (value_after (codes "--cwa-sup-type") arguments ≡ some sup_type)
      × (value_after (codes "--cwa-sup-info") arguments ≡ some sup_info)
      × (value_after (codes "--cwa-agg-type") arguments ≡ some agg_type)
      × (value_after (codes "--cwa-agg-info") arguments ≡ some agg_info)
unfolding process_arguments thread_arguments cwa_arguments
process_arguments-thread_arguments double worker plain info =
    let before = worker.definition.args ++ parameter_arguments double worker.parameter_values in
    let (p, q, u, v) = ArePlain-Without before plain in
    let s = server_type-IsPlain worker.supplier.class in
    let a = server_type-IsPlain worker.aggregator.class in
    (
      value_after-Without _ before _ _ _ p,
      value_after-Without _ before _ _ _ q ∙ rw (s.1) refl,
      value_after-Without _ before _ _ _ u ∙ rw (s.2, info.2) refl,
      value_after-Without _ before _ _ _ v ∙ rw (s.3, info.3, a.3) refl,
    )

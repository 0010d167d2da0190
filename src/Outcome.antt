-- ===== src/Outcome.antt =====
-- data/data_exception.h and process/exception.h: what a method may throw, and its outcome.

-- `plain` is the base class `Exception`; `length_error` is the standard library's, thrown by a
-- `resize` beyond the maximal size; `socket_error` is thrown by a socket call, `json_error` by the JSON library.
pub data Exception : Type 0 where
  plain orphan_dataset no_more_dataset no_more_supplier : Exception
  cannot_connect_to_server timeout length_error socket_error bad_conversion json_error : Exception

-- `exits` is a call of `exit(-1)`, which ends the process. `fault` is undefined behaviour: a read
-- through a null or an indeterminate pointer, or an index out of range.
pub data Outcome {ℓ} (A : Type ℓ) : Type ℓ where
  ok : A → Outcome A
  raise : Exception → Outcome A
  exits fault : Outcome A

infixl 5 ◌>>=◌
abbrev pub ◌>>=◌ {ℓ κ} : {A : Type ℓ} {B : Type κ} → Outcome A → (A → Outcome B) → Outcome B
fault >>= next = fault
exits >>= next = exits
raise e >>= next = raise e
ok a >>= next = next a

-- `catch (std::exception &)` around a call, with `exit(-1)` as its handler.
abbrev pub or_exit {ℓ} : {A : Type ℓ} → Outcome A → Outcome A
or_exit (ok a) = ok a
or_exit (raise e) = exits
or_exit exits = exits
or_exit fault = fault

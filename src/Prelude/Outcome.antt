-- ===== src/Prelude/Outcome.antt =====
-- Results of C functions that return -1 for an error.
-- What a function that can return -1 does; a `fault` is an access outside an array, which C leaves
-- undefined.
pub data Outcome (A : Type 0) : Type 0 where
  fault : Outcome A
  error : Outcome A
  done : A → Outcome A

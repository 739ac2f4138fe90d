-- ===== src/Explore.antt =====
-- src/simloom/_explore.py
use simloom.Prelude.{ℕ}
use simloom.Tape.{Exception}

-- `error` and `message`, the exception's type name and the start of its text, are kept as the
-- exception.
pub record Failure : Type 0 where
  pub seed : ℕ
  pub error : Exception

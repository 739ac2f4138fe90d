-- ===== src/Systematic/Returns.antt =====
-- A campaign of src/simloom/_systematic.py ends, within its budget of schedules.
use simloom.Prelude.{ℕ, ◌≤◌, Result, ok, err}
use simloom.Tape.{Exception}
use simloom.Systematic.{SystematicResult}

-- A campaign that returns, with at least `low` and at most `high` schedules run.
abbrev Ends : Result Exception SystematicResult → ℕ → ℕ → Type 0
Ends (ok s) low high = (low ≤ s.schedules) × (s.schedules ≤ high)
Ends (err e) low high = ⊥

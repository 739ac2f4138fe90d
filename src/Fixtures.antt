-- ===== src/Fixtures.antt =====
-- Inputs that the tests and the instances of the theorems share.
use Prim.Native.Nat.{◌%◌}
use native.Mathlib.Nat.{mod-lt}
use simloom.Prelude.{ℕ, ◌+◌, ◌<◌, List, [], ◌∷◌, if◌then◌else◌, ◌==◌}
use simloom.Tape.{Prng, Draw, program_error}
use simloom.Tape.Drawing.{drawn}
use simloom.Run.{Program, finish, request, passed, raised}

pub below_bound : (s bound : ℕ) → 0 < bound → s % bound < bound
below_bound s bound h = mod-lt s h

-- A generator that counts up.
abbrev pub counting : Prng
counting = record {
  State = ℕ;
  seeded = λ seed. seed;
  randrange = λ s bound. (s % bound, s + 1);
  randrange-lt = below_bound;
}

-- Two picks among two callbacks, the second made only behind a deviation.
abbrev pub two_picks : Program
two_picks =
    request "sched.pick" 1
      (λ v.
        if v == 0
        then finish passed
        else request "sched.pick" 1 (λ w. finish passed) (finish passed))
      (finish passed)

-- A race: it is lost when the second pick deviates too.
abbrev pub race : Program
race =
    request "sched.pick" 1
      (λ v.
        request "sched.pick" 2
          (λ w.
            if v == 0
            then finish passed
            else if w == 0
            then finish passed
            else finish (raised (program_error "AssertionError" "lost update")))
          (finish passed))
      (finish passed)

abbrev pub pick : ℕ → ℕ → Draw
pick value bound = drawn "sched.pick" value bound

abbrev pub race_lost : List Draw
race_lost = pick 1 2 ∷ pick 1 3 ∷ []

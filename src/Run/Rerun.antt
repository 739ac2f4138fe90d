-- ===== src/Run/Rerun.antt =====
-- What a run draws, `_execute` of src/simloom/_run.py makes again from a tape that feeds the draws.
use simloom.Prelude.{
  ℕ, suc, ◌+◌, String, true, ◌≡◌, refl, sym, ap, subst, ◌∙◌, Option, none, some, List, [], ◌∷◌,
  ◌++◌, ok, arith, length, All, append-nil, append_assoc, get_elem?-append, length-append, ==_iff,
}
use simloom.Tape.{
  Prng, Draw, MisalignmentPolicy, Rng, Tape, draw, replay_exact, is_replay, replay_with,
}
use simloom.Tape.Drawing.{
  IsValid, IsWellFormed, IsLenient, drawn, draw-Recorded, draw-IsWellFormed, draw-IsLenient,
  draw_returns, draw_aligned,
}
use simloom.Run.Trace.{Trace}
use simloom.Run.{
  Program, finish, request, Verdict, passed, raised, RunResult, resume, drive, execute,
  check_consumed,
}

module _ {p : Prng} where
  -- An aligned tape that has just what is left to replay.
  pub record Feeds (r : Tape p) (rest : List Draw) : Type 0 where
    pub recorded : r.recorded ≡ some (r.draws ++ rest)
    pub aligned : r.misaligned_at ≡ none
    pub counted : r.position ≡ length r.draws

  -- The tape when all of it has been replayed.
  pub consumed : Tape p → List Draw → Tape p
  consumed r rest = record r { draws = r.draws ++ rest; position = length (r.draws ++ rest) }

  -- What a run from `t` drew: a tape that feeds these draws makes the run again.
  pub record Rerun (program : Program) (t : Tape p) : Type 0 where
    pub new : List Draw
    pub draws : (drive program t).1.draws ≡ t.draws ++ new
    pub valid : All IsValid new
    pub trace : Trace program new (drive program t).0
    pub lenient : IsLenient (drive program t).1
    pub again : (r : Tape p) → Feeds r new → drive program r ≡ ((drive program t).0, consumed r new)

  consumed-nil : (r : Tape p) → r.position ≡ length r.draws → r ≡ consumed r []
  unfolding consumed
  consumed-nil r c = λ i. record r {
    draws = sym (append-nil r.draws) i;
    position = (c ∙ ap length (sym (append-nil r.draws))) i;
  }

  abbrev pub replayed : Tape p → Draw → Tape p
  replayed r d = record r { draws = r.draws ++ d ∷ []; position = r.position + 1 }

  pub Feeds-cons :
      (r : Tape p) (d : Draw) (rest : List Draw) → Feeds r (d ∷ rest) → Feeds (replayed r d) rest
  Feeds-cons r d rest f = record {
    recorded = rw (append_assoc) f.recorded;
    aligned = f.aligned;
    counted = omega (arith, f.counted, length-append r.draws (d ∷ []));
  }

  pub draw-Feeds :
      (r : Tape p) (d : Draw) (rest : List Draw)
      → IsValid d
      → Feeds r (d ∷ rest)
      → draw d.label d.bound r ≡ (ok d.value, replayed r d)
  draw-Feeds r d rest v f =
      draw_aligned r d (r.draws ++ d ∷ rest) v f.recorded f.aligned
        (rw f.counted (get_elem?-append r.draws rest d))

  consumed-cons :
      (r : Tape p) (d : Draw) (rest : List Draw)
      → consumed (replayed r d) rest ≡ consumed r (d ∷ rest)
  unfolding consumed
  consumed-cons r d rest = rw append_assoc

  -- The tree goes on at the value that was drawn.
  pub drive-request :
      (t t' : Tape p) (label : String) (k value : ℕ) (next : ℕ → Program) (rescue : Program)
      → draw label (suc k) t ≡ (ok value, t')
      → drive (request label k next rescue) t ≡ drive (next value) t'
  unfolding drive resume
  drive-request t t' label k value next rescue e = rw e

  pub drive-Rerun :
      (program : Program) (t : Tape p) → IsWellFormed t → IsLenient t → Rerun program t
  unfolding drive
  drive-Rerun (finish verdict) t w l = record {
    new = [];
    draws = sym (append-nil t.draws);
    valid = tt;
    trace = refl;
    lenient = l;
    again = λ r f. ap (λ r'. (verdict, r')) (consumed-nil r f.counted);
  }
  drive-Rerun (request label k next rescue) t w l =
      let (value, t', e) = draw_returns t label (suc k) w l (omega arith) in
      let drew = draw-Recorded t label (suc k) value t' e in
      let w' : IsWellFormed t' = rw e at (draw-IsWellFormed t label (suc k) w) in
      let l' : IsLenient t' = rw e at (draw-IsLenient t label (suc k) l) in
      let rest = drive-Rerun (next value) t' w' l' in
      let d = drawn label value (suc k) in
      let here = drive-request t t' label k value next rescue e in
      record {
        new = d ∷ rest.new;
        draws =
            ap (λ (x : Verdict × Tape p). x.1.draws) here
            ∙ rest.draws
            ∙ ap (λ ds. ds ++ rest.new) drew.appended
            ∙ append_assoc t.draws (d ∷ []) rest.new;
        valid = (drew.in_range, rest.valid);
        trace = (
          (refl, refl, drew.in_range),
          subst (Trace (next value) rest.new) (ap (λ x. x.0) (sym here)) rest.trace,
        );
        lenient = rw (sym here) at rest.lenient;
        again = λ r f.
            drive-request r (replayed r d) label k value next rescue
              (draw-Feeds r d rest.new drew.in_range f)
            ∙ rest.again (replayed r d) (Feeds-cons r d rest.new f)
            ∙ (λ i. ((sym here i).0, consumed-cons r d rest.new i));
      }

-- The verdict of a run whose tape cannot be found unconsumed is the program's own.
pub check_consumed-lenient :
    {p : Prng} (verdict : Verdict) (t : Tape p) → IsLenient t → check_consumed verdict t ≡ verdict
unfolding check_consumed is_replay replay_exact
check_consumed-lenient passed t l = ground arith
check_consumed-lenient (raised e) t l = refl

check_consumed-exact :
    {p : Prng} (verdict : Verdict) (t : Tape p)
    → replay_exact t ≡ true
    → check_consumed verdict t ≡ verdict
unfolding check_consumed
check_consumed-exact passed t x = ground arith
check_consumed-exact (raised e) t x = refl

abbrev result : Verdict → Option ℕ → List Draw → RunResult
result verdict seed tape = record { verdict = verdict; seed = seed; tape = tape }

module _ {p : Prng} where
  -- The result of a run, when its verdict stands.
  execute-drive :
      (program : Program) (seed : Option ℕ) (t t' : Tape p) (verdict : Verdict)
      → drive program t ≡ (verdict, t')
      → check_consumed verdict t' ≡ verdict
      → execute program seed t ≡ result verdict seed t'.draws
  unfolding execute
  execute-drive program seed t t' verdict e c =
      ap (λ (x : Verdict × Tape p). result (check_consumed x.0 x.1) seed x.1.draws) e
      ∙ ap (λ v. result v seed t'.draws) c

  consumed-exact :
      (new : List Draw) (policy : MisalignmentPolicy) (fallback_seed : ℕ) (rng : Rng p)
      → replay_exact (consumed (replay_with new policy fallback_seed rng) new) ≡ true
  unfolding consumed replay_with replay_exact
  consumed-exact new policy fallback_seed rng = (==_iff (length new) (length new)).1 refl

  pub Feeds-replay_with :
      (new : List Draw) (policy : MisalignmentPolicy) (fallback_seed : ℕ) (rng : Rng p)
      → Feeds (replay_with new policy fallback_seed rng) new
  unfolding replay_with
  Feeds-replay_with new policy fallback_seed rng = record {
    recorded = refl;
    aligned = refl;
    counted = refl;
  }

  consumed-draws :
      (new : List Draw) (policy : MisalignmentPolicy) (fallback_seed : ℕ) (rng : Rng p)
      → (consumed (replay_with new policy fallback_seed rng) new).draws ≡ new
  unfolding consumed replay_with
  consumed-draws new policy fallback_seed rng = refl

  -- Replay of what a run drew is the run: the same verdict, the same draws.
  pub execute-again :
      (program : Program) (seed : Option ℕ) (t : Tape p) (rng : Rng p) (policy : MisalignmentPolicy)
      (fallback_seed : ℕ)
      → IsWellFormed t
      → IsLenient t
      → t.draws ≡ []
      → execute program none (replay_with (execute program seed t).tape policy fallback_seed rng)
        ≡ record (execute program seed t) { seed = none }
  execute-again program seed t rng policy fallback_seed w l fresh =
      let x = drive-Rerun program t w l in
      let new : List Draw = x.new in
      let drew : (drive program t).1.draws ≡ new = x.draws ∙ ap (λ ds. ds ++ new) fresh in
      let r = replay_with new policy fallback_seed rng in
      let first =
        execute-drive program seed t (drive program t).1 (drive program t).0 refl
          (check_consumed-lenient (drive program t).0 (drive program t).1 x.lenient) in
      let second =
        execute-drive program none r (consumed r new) (drive program t).0
          (x.again r (Feeds-replay_with new policy fallback_seed rng))
          (check_consumed-exact (drive program t).0 (consumed r new)
            (consumed-exact new policy fallback_seed rng)) in
      ap (λ (z : RunResult). execute program none (replay_with z.tape policy fallback_seed rng))
        first
      ∙ ap (λ ds. execute program none (replay_with ds policy fallback_seed rng)) drew
      ∙ second
      ∙ ap (λ ds. result (drive program t).0 none ds) (consumed-draws new policy fallback_seed rng)
      ∙ ap (λ ds. result (drive program t).0 none ds) (sym drew)
      ∙ ap (λ (z : RunResult). record z { seed = none }) (sym first)

  -- The draws of a run are tape draws: each is below its bound.
  pub execute-IsValid :
      (program : Program) (seed : Option ℕ) (t : Tape p)
      → IsWellFormed t
      → IsLenient t
      → t.draws ≡ []
      → All IsValid (execute program seed t).tape
  unfolding execute
  execute-IsValid program seed t w l fresh =
      let x = drive-Rerun program t w l in
      subst (All IsValid) (sym (x.draws ∙ ap (λ ds. ds ++ x.new) fresh)) x.valid

-- A run has the seed that it is given.
pub execute-seed :
    {p : Prng} (program : Program) (seed : Option ℕ) (t : Tape p)
    → (execute program seed t).seed ≡ seed
unfolding execute
execute-seed program seed t = refl

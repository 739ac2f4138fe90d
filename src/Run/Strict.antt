-- ===== src/Run/Strict.antt =====
-- Strict replay (`MisalignmentPolicy.STRICT` of src/simloom/_tape.py in `_execute` of
-- src/simloom/_run.py): it never improvises.
use simloom.Prelude.{
  ℕ, suc, String, true, ◌≡◌, refl, sym, ap, ap₂, subst, ◌∙◌, ◌&&◌, none, some, List, [], ◌∷◌, ◌++◌,
  Result, ok, err, arith, length, All, append-nil, append_assoc, get_elem?, get_elem?-append,
  get_elem?-length, length-append, ◌==◌, str_eq, eq_iff, Bool-cases, inl, inr,
}
use simloom.Tape.{
  Prng, Exception, misalignment, Draw, strict, Tape, draw, replay_exact, is_replay, replay_with,
}
use simloom.Tape.Drawing.{IsValid, draw_diverges_strict}
use simloom.Run.{
  Program, finish, request, Verdict, passed, raised, RunResult, resume, drive, execute,
  check_consumed, replay,
}
use simloom.Run.Rerun.{Feeds, replayed, Feeds-cons, draw-Feeds, Feeds-replay_with}
use simloom.Run.Replay.{replay_inversion}

Matches-dec : (d : Draw) (label : String) (bound : ℕ) → Dec ((d.label ≡ label) × (d.bound ≡ bound))
Matches-dec d label bound = elim (Bool-cases (str_eq d.label label && d.bound == bound)) [
  | inl e ↦ yes (ground (arith, eq_iff d.label label), ground arith)
  | inr e ↦ no (λ m. ground (arith, m, eq_iff d.label label))
]

module _ {p : Prng} where
  -- A strict tape that still agrees with its recording.
  record OnTrack (recorded : List Draw) (r : Tape p) : Type 0 where
    rest : List Draw
    feeds : Feeds r rest
    is_strict : r.policy ≡ strict
    valid : All IsValid rest
    whole : r.draws ++ rest ≡ recorded

  OnTrack-replayed :
      (recorded : List Draw) (r : Tape p) (d : Draw) (rest : List Draw)
      → Feeds r (d ∷ rest)
      → r.policy ≡ strict
      → All IsValid (d ∷ rest)
      → r.draws ++ d ∷ rest ≡ recorded
      → OnTrack recorded (replayed r d)
  OnTrack-replayed recorded r d rest f s v w = record {
    rest = rest;
    feeds = Feeds-cons r d rest f;
    is_strict = s;
    valid = v.1;
    whole = append_assoc r.draws (d ∷ []) rest ∙ w;
  }

  draw_at_end :
      (r : Tape p) (label : String) (k : ℕ)
      → Feeds r []
      → r.policy ≡ strict
      → draw label (suc k) r ≡ (err misalignment, r)
  draw_at_end r label k f s =
      draw_diverges_strict r label (suc k) (r.draws ++ []) (omega arith) f.recorded f.aligned s
        λ d e.
          absurd
            (none≢some (sym (rw (f.counted, append-nil r.draws, get_elem?-length r.draws) at e)))
    where
      none≢some : {d : Draw} → some d ≡ none → ⊥
      none≢some e = cc

  draw_other :
      (r : Tape p) (label : String) (k : ℕ) (d : Draw) (rest : List Draw)
      → Feeds r (d ∷ rest)
      → r.policy ≡ strict
      → ¬ ((d.label ≡ label) × (d.bound ≡ suc k))
      → draw label (suc k) r ≡ (err misalignment, r)
  draw_other r label k d rest f s other =
      draw_diverges_strict r label (suc k) (r.draws ++ d ∷ rest) (omega arith) f.recorded f.aligned
        s
        λ d' e m.
          let same : some d ≡ some d' =
            sym (get_elem?-append r.draws rest d)
            ∙ ap (get_elem? (r.draws ++ d ∷ rest)) (sym f.counted)
            ∙ e in
          other (ground arith)

  draw_next :
      (recorded : List Draw) (r : Tape p) (label : String) (k value : ℕ) (r' : Tape p)
      (rest : List Draw)
      → Feeds r rest
      → r.policy ≡ strict
      → All IsValid rest
      → r.draws ++ rest ≡ recorded
      → draw label (suc k) r ≡ (ok value, r')
      → OnTrack recorded r'
  draw_next recorded r label k value r' [] f s v w e = cc (draw_at_end r label k f s)
  draw_next recorded r label k value r' (d ∷ rest) f s v w e = elim (Matches-dec d label (suc k)) [
    | yes m ↦
        let same : (ok d.value, replayed r d) ≡ (ok value, r') =
          sym (draw-Feeds r d rest v.0 f) ∙ ap₂ (λ l b. draw l b r) m.0 m.1 ∙ e in
        subst (OnTrack recorded) (ap (λ x. x.1) same) (OnTrack-replayed recorded r d rest f s v w)
    | no other ↦ cc (draw_other r label k d rest f s other)
  ]

  resume-OnTrack :
      (recorded : List Draw) (r : Tape p) (label : String) (k : ℕ) (next : ℕ → Program)
      (rescue : Program)
      → OnTrack recorded r
      → ((v : ℕ) (r' : Tape p)
          → OnTrack recorded r'
          → (drive (next v) r').0 ≡ passed
          → OnTrack recorded (drive (next v) r').1)
      → (q : Result Exception ℕ × Tape p) → draw label (suc k) r ≡ q
      → (resume (λ v. drive (next v)) (drive rescue) q).0 ≡ passed
      → OnTrack recorded (resume (λ v. drive (next v)) (drive rescue) q).1
  unfolding resume
  resume-OnTrack recorded r label k next rescue o ih (ok value, r') e h =
      ih value r'
        (draw_next recorded r label k value r' o.rest o.feeds o.is_strict o.valid o.whole e) h
  resume-OnTrack recorded r label k next rescue o ih (err x, r') e h = cc

  -- A run that passes on a strict tape has stayed on track.
  drive-OnTrack :
      (program : Program) (recorded : List Draw) (r : Tape p)
      → OnTrack recorded r
      → (drive program r).0 ≡ passed
      → OnTrack recorded (drive program r).1
  unfolding drive
  drive-OnTrack (finish verdict) recorded r o e = o
  drive-OnTrack (request label k next rescue) recorded r o e =
      resume-OnTrack recorded r label k next rescue o (λ v. drive-OnTrack (next v) recorded)
        (draw label (suc k) r) refl e

  OnTrack-exact :
      (recorded : List Draw) (r : Tape p)
      → OnTrack recorded r
      → replay_exact r ≡ true
      → r.draws ≡ recorded
  unfolding replay_exact
  OnTrack-exact recorded r o x =
      sym (append-nil r.draws) ∙ ap (λ ds. r.draws ++ ds) (sym none_left) ∙ o.whole
    where
      empty : (rest : List Draw) → length rest ≡ 0 → rest ≡ []
      empty [] e = refl
      empty (d ∷ rest) e = absurd (omega arith)

      none_left : o.rest ≡ []
      none_left = empty o.rest (
          ground (
            arith,
            o.feeds.recorded,
            o.feeds.aligned,
            o.feeds.counted,
            length-append r.draws o.rest,
          ))

  check_consumed-verdict :
      (verdict : Verdict) (r : Tape p) → check_consumed verdict r ≡ passed → verdict ≡ passed
  unfolding check_consumed
  check_consumed-verdict passed r h = refl
  check_consumed-verdict (raised x) r h = cc

  check_consumed-passed :
      (verdict : Verdict) (r : Tape p) (recorded : List Draw)
      → r.recorded ≡ some recorded
      → r.policy ≡ strict
      → check_consumed verdict r ≡ passed
      → (verdict ≡ passed) × (replay_exact r ≡ true)
  unfolding check_consumed is_replay
  check_consumed-passed passed r recorded e s h = (refl, ground arith)
  check_consumed-passed (raised x) r recorded e s h = cc

-- A strict replay that passes has made exactly the recorded draws: none was improvised, and none of
-- the recording is left over.
pub replay-strict :
    (p : Prng) (program : Program) (recorded : List Draw) (seed : ℕ) (name : String) (r : RunResult)
    → All IsValid recorded
    → replay p program recorded strict seed name ≡ ok r
    → r.verdict ≡ passed
    → r.tape ≡ recorded
unfolding execute replay_with
replay-strict p program recorded seed name r valid e h =
    let (rng, ran) = replay_inversion p program recorded strict seed name r e in
    let t : Tape p = replay_with recorded strict seed rng in
    let t' : Tape p = (drive program t).1 in
    let stands : check_consumed (drive program t).0 t' ≡ passed =
      ap (λ (z : RunResult). z.verdict) ran ∙ h in
    let start : OnTrack recorded t = record {
      rest = recorded;
      feeds = Feeds-replay_with recorded strict seed rng;
      is_strict = refl;
      valid = valid;
      whole = refl;
    } in
    let o =
      drive-OnTrack program recorded t start
        (check_consumed-verdict (drive program t).0 t' stands) in
    ap (λ (z : RunResult). z.tape) (sym ran)
    ∙ OnTrack-exact recorded t' o
        (check_consumed-passed (drive program t).0 t' (t'.draws ++ o.rest) o.feeds.recorded
          o.is_strict stands).1

-- ===== src/Sched/Floor.antt =====
-- The floor of src/simloom/_sched.py: a demoted entity is below every drawn priority.
use simloom.Prelude.{
  ℕ, ◌+◌, true, false, Option, none, some, List, [], ◌∷◌, ◌==◌, length, get_elem?, arith, Result,
  ok, err, ℤ, pos, negsuc, ltb_ℤ, eq_ℤ, ltb_ℤ_trans, ltb_ℤ-pred, any, neg, pred, and_then, ◌>>=◌,
  pure, ◌≡◌, refl, sym, ◌∙◌, subst, All, Bool-cases, inl, inr,
}
use simloom.Tape.{Prng, Exception, Tape, draw}
use simloom.Sched.{
  Handle, entity, Priority, Pct, priority_lt, found_priority, set_priority, keep_rank, priority,
  keys_of, highest_of, choose, demote, pct_pick,
}
use simloom.Sched.Keys.{found-set_same, found-set_other}

abbrev pub Above : ℤ → List (ℤ × Priority) → Type 0
Above floor l = All (λ (x : ℤ × Priority). ltb_ℤ floor x.1.0 ≡ true) l

-- The floor is negative, and below every priority.
pub record IsStacked (s : Pct) : Type 0 where
  pub negative : ltb_ℤ s.floor (pos 0) ≡ true
  pub above : Above s.floor s.priorities

set_priority-Above :
    (floor e : ℤ) (v : Priority) (l : List (ℤ × Priority))
    → ltb_ℤ floor v.0 ≡ true
    → Above floor l
    → Above floor (set_priority e v l)
unfolding set_priority
set_priority-Above floor e v [] h a = (h, tt)
set_priority-Above floor e v ((k, w) ∷ l) h a = elim (Bool-cases (eq_ℤ k e)) [
  | inl same ↦ rw same (h, a.1)
  | inr differs ↦ rw differs (a.0, set_priority-Above floor e v l h a.1)
]

lower-Above :
    (floor floor' : ℤ) (l : List (ℤ × Priority))
    → ltb_ℤ floor' floor ≡ true
    → Above floor l
    → Above floor' l
lower-Above floor floor' [] h a = tt
lower-Above floor floor' ((k, w) ∷ l) h a =
    (ltb_ℤ_trans floor' floor w.0 h a.0, lower-Above floor floor' l h a.1)

negative-pos : (floor : ℤ) (rank : ℕ) → ltb_ℤ floor (pos 0) ≡ true → ltb_ℤ floor (pos rank) ≡ true
negative-pos (pos a) rank h = ground arith
negative-pos (negsuc a) rank h = refl

demote-IsStacked : (o : Option Handle) (s : Pct) → IsStacked s → IsStacked (demote o s)
unfolding demote
demote-IsStacked none s i = i
demote-IsStacked (some h) s i =
    elim (Bool-cases (any (λ point. point == s.steps) s.change_points)) [
      | inr later ↦ rw later i
      | inl now ↦ rw now (record {
        negative = ltb_ℤ_trans (pred s.floor) s.floor (pos 0) (ltb_ℤ-pred s.floor) i.negative;
        above =
            set_priority-Above (pred s.floor) (entity h) (s.floor, neg (entity h)) s.priorities
              (ltb_ℤ-pred s.floor)
              (lower-Above s.floor (pred s.floor) s.priorities (ltb_ℤ-pred s.floor) i.above);
      })
    ]

found-Above :
    (floor e : ℤ) (l : List (ℤ × Priority)) (k : Priority)
    → Above floor l
    → found_priority e l ≡ some k
    → ltb_ℤ floor k.0 ≡ true
unfolding found_priority
found-Above floor e [] k a h = cc
found-Above floor e ((j, w) ∷ l) k a h = elim (Bool-cases (eq_ℤ j e)) [
  | inl same ↦
      let here : w ≡ k = from_some w (rw same at h) in
      subst (λ (x : Priority). ltb_ℤ floor x.0 ≡ true) here a.0
  | inr differs ↦ found-Above floor e l k a.1 (rw differs at h)
]
  where
    from_some : (w : Priority) → some w ≡ some k → w ≡ k
    from_some w e = cc

-- At a change point the entity that was picked goes below every other one: its new priority is below that
-- of each other entity that has one, if the floor was negative and below every priority.
pub demote_below :
    (h : Handle) (s : Pct) (e : ℤ) (k : Priority)
    → IsStacked s
    → any (λ point. point == s.steps) s.change_points ≡ true
    → eq_ℤ (entity h) e ≡ false
    → found_priority e (demote (some h) s).priorities ≡ some k
    → (low : Priority) × (found_priority (entity h) (demote (some h) s).priorities ≡ some low)
      × (priority_lt low k ≡ true)
unfolding demote
demote_below h s e k i now other found =
    let before = sym (found-set_other (entity h) e _ s.priorities other) ∙ rw now at found in
    let below = found-Above s.floor e s.priorities k i.above before in
    ((s.floor, neg (entity h)), rw now (found-set_same (entity h) _ s.priorities), rw below refl)

stepped-IsStacked : (s : Pct) (steps : ℕ) → IsStacked s → IsStacked (record s { steps = steps })
stepped-IsStacked s steps i = record { negative = i.negative; above = i.above }

module _ {p : Prng} where
  keep_rank-IsStacked :
      (e : ℤ) (s : Pct) (r : Result Exception ℕ × Tape p)
      → IsStacked s
      → IsStacked (keep_rank e s r).1.0
  unfolding keep_rank
  keep_rank-IsStacked e s (ok rank, t) i = record {
    negative = i.negative;
    above =
        set_priority-Above s.floor e (pos rank, neg e) s.priorities
          (negative-pos s.floor rank i.negative) i.above;
  }
  keep_rank-IsStacked e s (err x, t) i = i

  priority-IsStacked :
      (e : ℤ) (s : Pct) (t : Tape p) → IsStacked s → IsStacked (priority e (s, t)).1.0
  unfolding priority
  priority-IsStacked e s t i = by_found (found_priority e s.priorities)
    where
      by_found :
          (o : Option Priority)
          → IsStacked
              (elim o as (λ _. Result Exception Priority × (Pct × Tape p)) [
                | some found ↦ (ok found, (s, t))
                | none ↦ keep_rank e s (draw "pct.prio" 1024 t)
              ]).1.0
      by_found none = keep_rank-IsStacked e s (draw "pct.prio" 1024 t) i
      by_found (some k) = i

  after_key :
      {A B : Type 0} (r : Result Exception A × (Pct × Tape p))
      (next : A → Pct × Tape p → Result Exception B × (Pct × Tape p))
      → IsStacked r.1.0
      → ((a : A) (s : Pct) (t : Tape p) → IsStacked s → IsStacked (next a (s, t)).1.0)
      → IsStacked (and_then r.0 next r.1).1.0
  after_key (ok a, (s, t)) next i h = h a s t i
  after_key (err e, (s, t)) next i h = i

  keys_of-IsStacked :
      (hs : List Handle) (s : Pct) (t : Tape p) → IsStacked s → IsStacked (keys_of hs (s, t)).1.0
  unfolding keys_of
  keys_of-IsStacked [] s t i = i
  keys_of-IsStacked (h ∷ hs) s t i =
      after_key (priority (entity h) (s, t)) (λ key. keys_of hs >>= λ rest. pure (key ∷ rest))
        (priority-IsStacked (entity h) s t i)
        (λ key s' t' i'.
          after_key (keys_of hs (s', t')) (λ rest. pure (key ∷ rest))
            (keys_of-IsStacked hs s' t' i') (λ rest s2 t2 i2. i2))

  highest_of-IsStacked :
      (ks : List Priority) (s : Pct) (t : Tape p)
      → IsStacked s
      → IsStacked (highest_of ks (s, t)).1.0
  unfolding highest_of
  highest_of-IsStacked [] s t i = i
  highest_of-IsStacked (k ∷ ks) s t i = i

  choose-IsStacked :
      (ready : List Handle) (s : Pct) (t : Tape p)
      → IsStacked s
      → IsStacked (choose ready (s, t)).1.0
  unfolding choose
  choose-IsStacked ready s t i = elim (Bool-cases (length ready == 1)) [
    | inl one ↦ rw one i
    | inr more ↦ rw more (
        after_key (keys_of ready (s, t)) highest_of (keys_of-IsStacked ready s t i)
          (λ ks s' t' i'. highest_of-IsStacked ks s' t' i'))
  ]

  -- A pick, also one at which the tape raises, keeps the floor negative and below every priority.
  pub pct_pick-IsStacked :
      (ready : List Handle) (s : Pct) (t : Tape p)
      → IsStacked s
      → IsStacked (pct_pick ready (s, t)).1.0
  unfolding pct_pick
  pct_pick-IsStacked ready s t i =
      after_key (choose ready (s, t)) _ (choose-IsStacked ready s t i) (λ index s' t' i'.
        stepped-IsStacked (demote (get_elem? ready index) s') (s'.steps + 1)
          (demote-IsStacked (get_elem? ready index) s' i'))

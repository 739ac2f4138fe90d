-- ===== src/Loop/Due.antt =====
-- The timers that a turn takes from the heap, and where their handles go.
use simloom.Prelude.{
  Bool, true, false, not, ◌&&◌, List, [], ◌∷◌, ◌++◌, leb, if◌then◌else◌, ◌≡◌, refl, sym, ◌∙◌,
  append-nil, append_assoc, map, keep, Bool-cases, inl, inr,
}
use simloom.Tape.{Prng}
use simloom.Loop.{LoopHandle, Timer, Loop, is_cancelled, is_crashed_owned, handle_is_dead}
use simloom.Loop.Waiting.{place, take_due}
use simloom.Loop.Timers.{due_part, later_part}

module _ {W : Type 0} {p : Prng} where
  abbrev pub alive : Loop W p → LoopHandle W → Bool
  alive s h = not (handle_is_dead s h)

  abbrev pub parks : Loop W p → LoopHandle W → Bool
  parks s h = not (is_cancelled s.cancelled h) && is_crashed_owned s.crashed_tasks h

  abbrev pub due_handles : List (Timer W) → Loop W p → List (LoopHandle W)
  due_handles ts s = map (λ t. t.handle) (due_part s.now ts)

  abbrev pub taken : List (Timer W) → Loop W p → Loop W p
  taken ts s = record s {
    scheduled = later_part s.now ts;
    ready = s.ready ++ keep (alive s) (due_handles ts s);
    parked = s.parked ++ keep (parks s) (due_handles ts s);
  }

  taken_place :
      (t : Timer W) (ts : List (Timer W)) (s : Loop W p)
      → leb t.when s.now ≡ true
      → taken ts (place t.handle s) ≡ taken (t ∷ ts) s
  unfolding place handle_is_dead
  taken_place t ts s e = elim (Bool-cases (is_cancelled s.cancelled t.handle)) [
    | inl c ↦ rw (e, c) refl
    | inr c ↦ elim (Bool-cases (is_crashed_owned s.crashed_tasks t.handle)) [
      | inl d ↦
          rw (e, c, d)
            (λ i. record (taken ts s) {
              parked = append_assoc s.parked (t.handle ∷ []) (keep (parks s) (due_handles ts s)) i;
            })
      | inr d ↦
          rw (e, c, d)
            (λ i. record (taken ts s) {
              ready = append_assoc s.ready (t.handle ∷ []) (keep (alive s) (due_handles ts s)) i;
            })
    ]
  ]

  nothing_taken :
      (ts : List (Timer W)) (s : Loop W p)
      → record s { scheduled = ts }
        ≡ record s { scheduled = ts; ready = s.ready ++ []; parked = s.parked ++ [] }
  nothing_taken ts s = λ i. record s {
    scheduled = ts;
    ready = sym (append-nil s.ready) i;
    parked = sym (append-nil s.parked) i;
  }

  -- The loop over the due timers, in one step.
  pub take_due_lem : (ts : List (Timer W)) (s : Loop W p) → take_due ts s ≡ taken ts s
  unfolding take_due
  take_due_lem [] s = nothing_taken [] s
  take_due_lem (t ∷ ts) s = on_test (leb t.when s.now) refl (take_due_lem ts (place t.handle s))
    where
      on_test :
          (b : Bool)
          → leb t.when s.now ≡ b
          → take_due ts (place t.handle s) ≡ taken ts (place t.handle s)
          → (if b then take_due ts (place t.handle s) else record s { scheduled = t ∷ ts })
            ≡ taken (t ∷ ts) s
      on_test true e h = h ∙ taken_place t ts s e
      on_test false e h = rw e (nothing_taken (t ∷ ts) s)

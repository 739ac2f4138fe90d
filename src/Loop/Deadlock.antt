-- ===== src/Loop/Deadlock.antt =====
-- When the loop reports a deadlock: exactly when nothing can ever run again.
use simloom.Prelude.{
  ℕ, Bool, true, false, not, Option, none, some, List, [], ◌∷◌, ◌≡◌, refl, sym, ◌∙◌, ◌↔◌, arith,
  All, keep, After, Result, ok, err, bind-After, weaken-After, inl, inr, Bool-cases,
}
use simloom.Tape.{Prng}
use simloom.Loop.{LoopError, LoopHandle, Timer, Loop, is_cancelled, handle_is_dead}
use simloom.Loop.Waiting.{drop_cancelled, compact_ready, report_deadlock}
use simloom.Loop.Step.{choose_next, run_chosen, run_handle, run_once}
use simloom.Loop.Waited.{Waited, was_ready, jumped, checked, quiescent, unmet}
use simloom.Loop.Chosen.{
  is_deadlock, missed, prepared, Chosen, over, nothing_due, chose, Failed, refused, no_pick,
  choose_next-Chosen,
}
use simloom.Loop.Ran.{Ran, run_handle-Ran}

abbrev pub ends_in_deadlock : {A S : Type 0} → Result LoopError A × S → Bool
ends_in_deadlock (ok a, s) = false
ends_in_deadlock (err e, s) = is_deadlock e

module _ {A : Type 0} where
  keep-none :
      (q : A → Bool) (xs : List A) → keep (λ x. not (q x)) xs ≡ [] → All (λ x. q x ≡ true) xs
  keep-none q [] h = tt
  keep-none q (x ∷ xs) h = elim (Bool-cases (q x)) [
    | inl e ↦ (e, keep-none q xs (ground (arith, e, h)))
    | inr e ↦ ground (arith, e, h)
  ]

  All-keep_none :
      (q : A → Bool) (xs : List A) → All (λ x. q x ≡ true) xs → keep (λ x. not (q x)) xs ≡ []
  All-keep_none q [] h = refl
  All-keep_none q (x ∷ xs) h = rw h.0 (All-keep_none q xs h.1)

module _ {W : Type 0} where
  drop_cancelled-none :
      (c : List ℕ) (ts : List (Timer W))
      → drop_cancelled c ts ≡ []
      → All (λ t. is_cancelled c t.handle ≡ true) ts
  unfolding drop_cancelled
  drop_cancelled-none c [] h = tt
  drop_cancelled-none c (t ∷ ts) h = elim (Bool-cases (is_cancelled c t.handle)) [
    | inl e ↦ (e, drop_cancelled-none c ts (ground (arith, e, h)))
    | inr e ↦ ground (arith, e, h)
  ]

  All-drop_cancelled :
      (c : List ℕ) (ts : List (Timer W))
      → All (λ t. is_cancelled c t.handle ≡ true) ts
      → drop_cancelled c ts ≡ []
  unfolding drop_cancelled
  All-drop_cancelled c [] h = refl
  All-drop_cancelled c (t ∷ ts) h = rw h.0 (All-drop_cancelled c ts h.1)

module _ {W : Type 0} {p : Prng} where
  -- All that is ready is cancelled or a crashed task's, and all timers are cancelled.
  abbrev pub Quiescent : Loop W p → Type 0
  Quiescent s =
      All (λ h. handle_is_dead s h ≡ true) s.ready
      × All (λ t. is_cancelled s.cancelled t.handle ≡ true) s.scheduled

  -- A result is no deadlock, or the loop was quiescent.
  abbrev Explained : {A : Type 0} → Loop W p → Result LoopError A × Loop W p → Type 0
  Explained s r = After (λ a t. Unit {0}) (λ e t. is_deadlock e ≡ true → Quiescent s) r

  Failed-Explained :
      (s : Loop W p) (e : LoopError) (t : Loop W p)
      → Failed s e t
      → is_deadlock e ≡ true
      → Quiescent s
  unfolding compact_ready handle_is_dead
  Failed-Explained s e u (refused (quiescent r q)) d =
      (keep-none _ s.ready r, drop_cancelled-none s.cancelled s.scheduled q)
  Failed-Explained s e u (refused (unmet deadline v ms f g)) d = cc
  Failed-Explained s e u (no_pick w (missed scheduler tape n)) d = cc

  run_chosen-Explained :
      (s : Loop W p) (c : Option (LoopHandle W)) (t : Loop W p) → Explained s (run_chosen c t)
  unfolding run_chosen
  run_chosen-Explained s none t = tt
  run_chosen-Explained s (some g) t =
      weaken-After (λ u v. Ran t v) (λ u v. Unit {0})
        (λ e v. (v.now ≡ t.now) × (is_deadlock e ≡ false))
        (λ e v. is_deadlock e ≡ true → Quiescent s) (run_handle g t) (run_handle-Ran g t)
        (λ u v r. tt) (λ e v q d. impossible (sym q.1 ∙ d))
    where
      impossible : false ≡ true → Quiescent s
      impossible e = cc

  run_once-Explained : (s : Loop W p) → Explained s (run_once s)
  unfolding run_once
  run_once-Explained s =
      bind-After (λ c t. Unit {0}) (λ u v. Unit {0}) (λ e t. is_deadlock e ≡ true → Quiescent s)
        choose_next run_chosen s
        (weaken-After (Chosen s) (λ c t. Unit {0}) (Failed s)
          (λ e t. is_deadlock e ≡ true → Quiescent s) (choose_next s) (choose_next-Chosen s)
          (λ c t h. tt) (Failed-Explained s))
        (λ c t h. run_chosen-Explained s c t)

  Explained-Quiescent :
      {A : Type 0} (s : Loop W p) (r : Result LoopError A × Loop W p)
      → Explained s r
      → ends_in_deadlock r ≡ true
      → Quiescent s
  Explained-Quiescent s (ok a, t) h d = cc
  Explained-Quiescent s (err e, t) h d = h d

  empty_ready : (s : Loop W p) → Quiescent s → (prepared s).ready ≡ []
  unfolding compact_ready handle_is_dead
  empty_ready s h = All-keep_none _ s.ready h.0

  empty_scheduled : (s : Loop W p) → Quiescent s → (prepared s).scheduled ≡ []
  unfolding compact_ready
  empty_scheduled s h = All-drop_cancelled s.cancelled s.scheduled h.1

  no_wait : {b : Bool} (s t : Loop W p) → Quiescent s → Waited (prepared s) b t → ⊥
  no_wait s t h (was_ready r) = r (empty_ready s h)
  no_wait s t h (jumped now log r q f on tg k' j) = q (empty_scheduled s h)
  no_wait s t h (checked d ms f g tg r k' o') = g (empty_scheduled s h)

  no_choice :
      (s : Loop W p) → Quiescent s → (c : Option (LoopHandle W)) (t : Loop W p) → Chosen s c t → ⊥
  no_choice s h c u (over w) = no_wait s u h w
  no_choice s h c u (nothing_due {t = t} w) = no_wait s t h w
  no_choice s h c u (chose {t = t} w o) = no_wait s t h w

  only_deadlock :
      (s : Loop W p)
      → Quiescent s
      → (e : LoopError) (t : Loop W p) → Failed s e t
      → is_deadlock e ≡ true
  unfolding report_deadlock
  only_deadlock s h e u (refused (quiescent r q)) = refl
  only_deadlock s h e u (refused (unmet d v ms f g)) = absurd (g (empty_scheduled s h))
  only_deadlock s h e u (no_pick {t = t} w m) = absurd (no_wait s t h w)

  all_deadlock :
      {A : Type 0} (r : Result LoopError A × Loop W p)
      → After (λ a t. ⊥) (λ e t. is_deadlock e ≡ true) r
      → ends_in_deadlock r ≡ true
  all_deadlock (ok a, t) h = absurd h
  all_deadlock (err e, t) h = h

  Quiescent-ends_in_deadlock : (s : Loop W p) → Quiescent s → ends_in_deadlock (run_once s) ≡ true
  unfolding run_once
  Quiescent-ends_in_deadlock s h = all_deadlock (run_once s) (
      bind-After (λ c t. ⊥) (λ u v. ⊥) (λ e t. is_deadlock e ≡ true) choose_next run_chosen s
        (weaken-After (Chosen s) (λ c t. ⊥) (Failed s) (λ e t. is_deadlock e ≡ true) (choose_next s)
          (choose_next-Chosen s) (no_choice s h) (only_deadlock s h))
        (λ c t z. absurd z))

  -- A turn raises a deadlock if and only if every ready handle is cancelled or owned by a crashed
  -- task and every timer is cancelled; monitors with deadlines do not change this.
  pub run_once-Quiescent : (s : Loop W p) → (ends_in_deadlock (run_once s) ≡ true) ↔ Quiescent s
  run_once-Quiescent s =
      (Explained-Quiescent s (run_once s) (run_once-Explained s), Quiescent-ends_in_deadlock s)

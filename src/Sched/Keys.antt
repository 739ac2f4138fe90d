-- ===== src/Sched/Keys.antt =====
-- The priorities of src/simloom/_sched.py: drawn once for each entity, and kept.
use simloom.Prelude.{
  ℕ, false, Option, none, some, List, [], ◌∷◌, if◌then◌else◌, Result, ok, err, ℤ, eq_ℤ, eq_ℤ_sound,
  eq_ℤ_refl, and_then, ◌>>=◌, pure, ◌≡◌, refl, sym, ap, ◌∙◌, subst, Bool-cases, inl, inr,
}
use simloom.Tape.{Prng, Exception, Tape, draw}
use simloom.Sched.{
  Handle, entity, Priority, Pct, found_priority, set_priority, keep_rank, priority, keys_of,
}

-- The callbacks have these keys among the priorities.
abbrev pub Keys : List (ℤ × Priority) → List Handle → List Priority → Type 0
Keys priorities [] [] = Unit
Keys priorities [] (k ∷ ks) = ⊥
Keys priorities (h ∷ hs) [] = ⊥
Keys priorities (h ∷ hs) (k ∷ ks) =
    (found_priority (entity h) priorities ≡ some k) × Keys priorities hs ks

-- A priority that was drawn is kept.
abbrev pub Extends : List (ℤ × Priority) → List (ℤ × Priority) → Type 0
Extends l l' = (e : ℤ) (k : Priority) → found_priority e l ≡ some k → found_priority e l' ≡ some k

pub found-set_same :
    (e : ℤ) (v : Priority) (l : List (ℤ × Priority))
    → found_priority e (set_priority e v l) ≡ some v
unfolding found_priority set_priority
found-set_same e v [] = rw (eq_ℤ_refl e) refl
found-set_same e v ((k, w) ∷ l) = elim (Bool-cases (eq_ℤ k e)) [
  | inl same ↦ rw (same, same) refl
  | inr differs ↦ rw (differs, differs) (found-set_same e v l)
]

pub found-set_other :
    (e e' : ℤ) (v : Priority) (l : List (ℤ × Priority))
    → eq_ℤ e e' ≡ false
    → found_priority e' (set_priority e v l) ≡ found_priority e' l
unfolding found_priority set_priority
found-set_other e e' v [] h = rw h refl
found-set_other e e' v ((k, w) ∷ l) h = elim (Bool-cases (eq_ℤ k e)) [
  | inl same ↦
      let there : eq_ℤ k e' ≡ false =
        subst (λ x. eq_ℤ x e' ≡ false) (sym (eq_ℤ_sound k e same)) h in
      rw (same, there) refl
  | inr differs ↦
      rw differs (ap (λ o. if eq_ℤ k e' then some w else o) (found-set_other e e' v l h))
]

Keys-Extends :
    (l l' : List (ℤ × Priority)) (hs : List Handle) (ks : List Priority)
    → Extends l l'
    → Keys l hs ks
    → Keys l' hs ks
Keys-Extends l l' [] [] x h = tt
Keys-Extends l l' [] (k ∷ ks) x h = h
Keys-Extends l l' (h ∷ hs) [] x a = a
Keys-Extends l l' (h ∷ hs) (k ∷ ks) x a = (x (entity h) k a.0, Keys-Extends l l' hs ks x a.1)

module _ {p : Prng} where
  abbrev pub PriorityMade : ℤ → Pct → Result Exception Priority × (Pct × Tape p) → Type 0
  PriorityMade e s (ok k, (s', t)) =
      (found_priority e s'.priorities ≡ some k) × Extends s.priorities s'.priorities
  PriorityMade e s (err x, (s', t)) = Unit

  keep_rank-made :
      (e : ℤ) (s : Pct) (r : Result Exception ℕ × Tape p)
      → found_priority e s.priorities ≡ none
      → PriorityMade e s (keep_rank e s r)
  unfolding keep_rank
  keep_rank-made e s (ok rank, t) fresh = (
    found-set_same e _ s.priorities,
    (λ e' k h. elim (Bool-cases (eq_ℤ e e')) [
      | inl same ↦
          cc (subst (λ x. found_priority x s.priorities ≡ none) (eq_ℤ_sound e e' same) fresh, h)
      | inr differs ↦ found-set_other e e' _ s.priorities differs ∙ h
    ]),
  )
  keep_rank-made e s (err x, t) fresh = tt

  pub priority-made : (e : ℤ) (s : Pct) (t : Tape p) → PriorityMade e s (priority e (s, t))
  unfolding priority
  priority-made e s t = by_found (found_priority e s.priorities) refl
    where
      by_found :
          (o : Option Priority)
          → found_priority e s.priorities ≡ o
          → PriorityMade e s (elim o [
            | some found ↦ (ok found, (s, t))
            | none ↦ keep_rank e s (draw "pct.prio" 1024 t)
          ])
      by_found none fresh = keep_rank-made e s (draw "pct.prio" 1024 t) fresh
      by_found (some k) known = (known, (λ e' k' h. h))

  abbrev pub KeysMade :
      List Handle → Pct → Result Exception (List Priority) × (Pct × Tape p) → Type 0
  KeysMade hs s (ok ks, (s', t)) = Keys s'.priorities hs ks × Extends s.priorities s'.priorities
  KeysMade hs s (err x, (s', t)) = Unit

  abbrev key_then :
      List Handle
      → Result Exception Priority × (Pct × Tape p)
      → Result Exception (List Priority) × (Pct × Tape p)
  key_then hs (r, s) = and_then r (λ key. keys_of hs >>= λ rest. pure (key ∷ rest)) s

  abbrev rest_then :
      Priority
      → Result Exception (List Priority) × (Pct × Tape p)
      → Result Exception (List Priority) × (Pct × Tape p)
  rest_then key (r, s) = and_then r (λ rest. pure (key ∷ rest)) s

  rest-made :
      (h : Handle) (hs : List Handle) (s s' : Pct) (key : Priority)
      (r : Result Exception (List Priority) × (Pct × Tape p))
      → found_priority (entity h) s'.priorities ≡ some key
      → Extends s.priorities s'.priorities
      → KeysMade hs s' r
      → KeysMade (h ∷ hs) s (rest_then key r)
  rest-made h hs s s' key (ok ks, (s2, t)) f x m =
      ((m.1 (entity h) key f, m.0), (λ e k a. m.1 e k (x e k a)))
  rest-made h hs s s' key (err e, (s2, t)) f x m = tt

  key-made :
      (h : Handle) (hs : List Handle) (s : Pct) (r : Result Exception Priority × (Pct × Tape p))
      → PriorityMade (entity h) s r
      → ((s' : Pct) (t : Tape p) → KeysMade hs s' (keys_of hs (s', t)))
      → KeysMade (h ∷ hs) s (key_then hs r)
  key-made h hs s (ok k, (s', t)) m rest =
      rest-made h hs s s' k (keys_of hs (s', t)) m.0 m.1 (rest s' t)
  key-made h hs s (err e, (s', t)) m rest = tt

  -- The keys that are compared are the priorities of the callbacks' entities, each drawn once and kept.
  pub keys_of-made : (hs : List Handle) (s : Pct) (t : Tape p) → KeysMade hs s (keys_of hs (s, t))
  unfolding keys_of
  keys_of-made [] s t = (tt, (λ e k h. h))
  keys_of-made (h ∷ hs) s t =
      key-made h hs s (priority (entity h) (s, t)) (priority-made (entity h) s t) (keys_of-made hs)

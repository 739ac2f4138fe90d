-- ===== src/Sched.antt =====
-- src/simloom/_sched.py: which of the ready callbacks runs next.
pub mod Keys
pub mod Picks
pub mod Floor
mod Examples
use simloom.Prelude.{
  ℕ, zero, suc, ◌+◌, ◌-◌, Bool, true, false, ◌&&◌, ◌||◌, Option, none, some, List, [], ◌∷◌, ltb,
  ◌==◌, any, length, get_elem?, if◌then◌else◌, Result, ok, err, Action, pure, raise, ◌>>=◌, ℤ, pos,
  negsuc, ltb_ℤ, eq_ℤ, neg, pred,
}
use simloom.Tape.{Prng, Exception, value_error, Tape, draw}

-- The callback of a handle: a method of a task with its creation order, some other function, or a
-- `functools.partial` of a callback.
pub data Handle : Type 0 where
  task_step : ℕ → Handle
  ownerless : Handle
  partial_of : Handle → Handle

-- `_entity`
pub entity : Handle → ℤ
entity (task_step order) = pos order
entity ownerless = negsuc 0
entity (partial_of inner) = entity inner

module _ {p : Prng} where
  -- `_RandomWalk.pick`
  unfoldable pub walk_pick : List Handle → Action (Tape p) Exception ℕ
  walk_pick ready = if length ready == 1 then pure 0 else draw "sched.pick" (length ready)

abbrev pub Priority : Type 0
Priority = ℤ × ℤ

pub record Pct : Type 0 where
  pub priorities : List (ℤ × Priority)
  pub floor : ℤ
  pub steps : ℕ
  pub change_points : List ℕ

-- `self._priorities.get(entity)`
pub found_priority : ℤ → List (ℤ × Priority) → Option Priority
found_priority e [] = none
found_priority e ((k, v) ∷ l) = let rest = found_priority e l in if eq_ℤ k e then some v else rest

-- `self._priorities[entity] = priority`
pub set_priority : ℤ → Priority → List (ℤ × Priority) → List (ℤ × Priority)
set_priority e v [] = (e, v) ∷ []
set_priority e v ((k, w) ∷ l) =
    let rest = set_priority e v l in if eq_ℤ k e then (k, v) ∷ l else (k, w) ∷ rest

-- `<` of two priorities.
abbrev pub priority_lt : Priority → Priority → Bool
priority_lt (a, b) (c, d) = ltb_ℤ a c || (eq_ℤ a c && ltb_ℤ b d)

-- The first index of a highest key, from the index of the best one so far.
pub highest : (best : ℕ) → Priority → (index : ℕ) → List Priority → ℕ
highest best key index [] = best
highest best key index (k ∷ ks) =
    if priority_lt key k then highest index k (index + 1) ks else highest best key (index + 1) ks

-- At a change point the entity that was picked goes below all others.
pub demote : Option Handle → Pct → Pct
demote none s = s
demote (some h) s =
    if any (λ point. point == s.steps) s.change_points
    then record s {
      priorities = set_priority (entity h) (s.floor, neg (entity h)) s.priorities;
      floor = pred s.floor;
    }
    else s

module _ {p : Prng} where
  -- `{tape.draw("pct.change", horizon) for _ in range(count)}`
  pub draw_changes : ℕ → ℕ → Action (Tape p) Exception (List ℕ)
  draw_changes horizon zero = pure []
  draw_changes horizon (suc count) = do
    point ← draw "pct.change" horizon
    points ← draw_changes horizon count
    pure (point ∷ points)

  -- `_PCT(loop, depth, horizon, descriptor)`
  pub new_pct : ℕ → ℕ → Action (Tape p) Exception Pct
  new_pct depth horizon = do
    points ← draw_changes horizon (depth - 1)
    pure (record { priorities = []; floor = negsuc 0; steps = 0; change_points = points })

  -- Tape-drawn rank; the entity breaks ties.
  pub keep_rank : ℤ → Pct → Result Exception ℕ × Tape p → Result Exception Priority × (Pct × Tape p)
  keep_rank e s (ok rank, t) = (
    ok (pos rank, neg e),
    (record s { priorities = set_priority e (pos rank, neg e) s.priorities }, t),
  )
  keep_rank e s (err x, t) = (err x, (s, t))

  -- `_priority`
  pub priority : ℤ → Action (Pct × Tape p) Exception Priority
  priority e (s, t) = elim (found_priority e s.priorities) [
    | some found ↦ (ok found, (s, t))
    | none ↦ keep_rank e s (draw "pct.prio" 1024 t)
  ]

  -- The keys that `max` compares, made in the order of the indices.
  pub keys_of : List Handle → Action (Pct × Tape p) Exception (List Priority)
  keys_of [] = pure []
  keys_of (h ∷ hs) = do key ← priority (entity h); rest ← keys_of hs; pure (key ∷ rest)

  pub highest_of : List Priority → Action (Pct × Tape p) Exception ℕ
  highest_of [] = raise value_error
  highest_of (k ∷ ks) = pure (highest 0 k 1 ks)

  unfoldable pub choose : List Handle → Action (Pct × Tape p) Exception ℕ
  choose ready = if length ready == 1 then pure 0 else (keys_of ready >>= highest_of)

  -- `_PCT.pick`
  unfoldable pub pct_pick : List Handle → Action (Pct × Tape p) Exception ℕ
  pct_pick ready = do
    index ← choose ready
    (λ (s, t). (ok index, (record (demote (get_elem? ready index) s) { steps = s.steps + 1 }, t)))

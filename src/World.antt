-- ===== src/World.antt =====
-- src/simloom/_world.py: the hosts of a simulated world, on the loop and with their disks. The network
-- is left out: what a crash does to connections, endpoints and servers has no counterpart.
pub mod Isolated
pub mod Restarted
mod Examples
use simloom.Prelude.{
  ℕ, zero, suc, ◌+◌, String, Bool, true, false, not, ◌&&◌, ◌||◌, Option, none, some, List, [], ◌∷◌,
  ◌++◌, leb, ltb, str_eq, any, length, if◌then◌else◌, Result, ok, err, Action, pure, raise, ◌>>=◌,
  ◌>>◌, Dict, lookup, put, texts, decimal,
}
use simloom.Tape.{Prng, Exception, Tape, value_error}
use simloom.Disk.{SimDisk, new_disk, power_cut}
use simloom.Monitors.{MonitorSet, add_always, add_eventually, add_leads_to}
use simloom.Loop.{
  LoopError, runtime_error, tape_error, Body, Task, Loop, emit, host_crashed, host_restarted,
  is_among,
}
use simloom.Loop.Requests.{create_task, crash_tasks}

-- An entry is a factory, which makes the same body each time, or `none` for a raw coroutine. The tasks
-- of the host are those that `_spawn` registered and, from a place of the loop's tasks on, those that
-- `create_task` registered with it as the current host.
pub record Host (W : Type 0) : Type 0 where
  pub name : String
  pub disk : SimDisk
  pub crashed : Bool
  pub generation : ℕ
  pub entries : List (Option (Body W))
  pub spawned : List ℕ
  pub registered_from : ℕ
  pub task_seq : ℕ

pub is_text : Option String → String → Bool
is_text none name = false
is_text (some other) name = str_eq other name

-- A target of `spawn`: a factory or a coroutine, with the qualified name and the body of what it runs.
pub record Target (W : Type 0) : Type 0 where
  pub factory : Bool
  pub body : Body W

unfoldable pub entry_of : {W : Type 0} → Target W → Option (Body W)
entry_of t = if t.factory then some t.body else none

unfoldable pub target_of : {W : Type 0} → Body W → Target W
target_of body = record { factory = true; body = body }

-- The places of the tasks that are on a host and not done, from a place on.
unfoldable pub live_from : {W : Type 0} → Host W → ℕ → List Task → List ℕ
unfolding is_text
live_from h i [] = []
live_from h i (t ∷ ts) =
    let rest = live_from h (suc i) ts in
    if not t.done && (is_among i h.spawned || (leb h.registered_from i && is_text t.host h.name))
    then i ∷ rest
    else rest

-- `_live_tasks`
unfoldable pub live_tasks : {W : Type 0} → Host W → List Task → List ℕ
unfolding live_from
live_tasks h tasks = live_from h 0 tasks

unfoldable pub new_host : {W : Type 0} → String → Host W
new_host name = record {
  name = name;
  disk = new_disk;
  crashed = false;
  generation = 0;
  entries = [];
  spawned = [];
  registered_from = 0;
  task_seq = 0;
}

abbrev pub HostAction : Type 0 → Prng → Type 0 → Type 0
HostAction W p A = Action (Host W × Loop W p) LoopError A

module _ {W : Type 0} where
  unfoldable pub entry_name : Option String → Host W → String
  unfolding decimal
  entry_name (some name) h = name
  entry_name none h = texts (h.name ∷ "/entry-" ∷ decimal h.task_seq ∷ [])

  unfoldable pub next_task_seq : Option String → Host W → ℕ
  next_task_seq (some name) h = h.task_seq
  next_task_seq none h = suc h.task_seq

  -- `any(entry is None for entry in self._entries)`
  unfoldable pub has_raw : List (Option (Body W)) → Bool
  has_raw [] = false
  has_raw (none ∷ es) = true
  has_raw (some body ∷ es) = has_raw es

  -- `World.host`
  unfoldable pub host : String → Dict (Host W) → Host W × Dict (Host W)
  unfolding lookup put new_host
  host name hosts = elim (lookup name hosts) [
    | some h ↦ (h, hosts)
    | none ↦ (new_host name, put name (new_host name) hosts)
  ]

module _ {W : Type 0} {p : Prng} where
  unfoldable pub registered :
      Result LoopError ℕ × Loop W p → Host W → Result LoopError ℕ × (Host W × Loop W p)
  registered (ok order, s) h = (ok order, (record h { spawned = h.spawned ++ order ∷ [] }, s))
  registered (err e, s) h = (err e, (h, s))

  -- `_spawn`; `current` is the host of the task that calls it, if a task does.
  unfoldable pub spawn_on : Body W → Option String → Option String → HostAction W p ℕ
  unfolding create_task registered entry_name next_task_seq
  spawn_on body name current (h, s) =
      registered
        (create_task (some (entry_name name h)) current "Host._spawn.<locals>.hosted" body s)
        (record h { task_seq = next_task_seq name h })

  -- `spawn`
  unfoldable pub spawn : Target W → Option String → Option String → HostAction W p ℕ
  unfolding entry_of spawn_on
  spawn target name current (h, s) =
      if h.crashed
      then (err (runtime_error "host is crashed; restart() it first"), (h, s))
      else spawn_on target.body name current
          (record h { entries = h.entries ++ entry_of target ∷ [] }, s)

  unfoldable pub after_cut :
      Host W
      → Loop W p
      → Result Exception (Unit {0}) × (SimDisk × Tape p)
      → Result LoopError (Unit {0}) × (Host W × Loop W p)
  after_cut h s (ok u, (disk, tape)) = (ok u, (record h { disk = disk }, record s { tape = tape }))
  after_cut h s (err e, (disk, tape)) =
      (err (tape_error e), (record h { disk = disk }, record s { tape = tape }))

  -- The host is off, and its tasks are crashed and forgotten.
  unfoldable pub switch_off : Host W × Loop W p → Host W × Loop W p
  unfolding emit crash_tasks live_tasks
  switch_off (h, s) = (
    record h { crashed = true; spawned = []; registered_from = length s.tasks },
    crash_tasks (live_tasks h s.tasks) (emit (host_crashed h.name) s),
  )

  unfoldable pub cut_power : HostAction W p (Unit {0})
  unfolding after_cut
  cut_power (h, s) = after_cut h s (power_cut (h.disk, s.tape))

  -- `crash`
  unfoldable pub crash : HostAction W p (Unit {0})
  unfolding switch_off cut_power
  crash (h, s) = if h.crashed then (ok tt, (h, s)) else cut_power (switch_off (h, s))

  -- `for factory in entries: self.spawn(factory)`
  unfoldable pub spawn_each : List (Option (Body W)) → Option String → HostAction W p (Unit {0})
  unfolding spawn target_of
  spawn_each [] current = pure tt
  spawn_each (none ∷ es) current = raise (runtime_error "assertion")
  spawn_each (some body ∷ es) current = spawn (target_of body) none current >> spawn_each es current

  unfoldable pub switch_on : Host W × Loop W p → Host W × Loop W p
  unfolding emit
  switch_on (h, s) = (
    record h { crashed = false; generation = suc h.generation; entries = [] },
    emit (host_restarted h.name (suc h.generation)) s,
  )

  -- `restart`
  unfoldable pub restart : Option String → HostAction W p (Unit {0})
  unfolding has_raw spawn_each switch_on
  restart current (h, s) =
      if not h.crashed
      then (err (runtime_error "host is not crashed"), (h, s))
      else if has_raw h.entries
      then (err (runtime_error "host was spawned with raw coroutine objects"), (h, s))
      else spawn_each h.entries current (switch_on (h, s))

  unfoldable pub on_monitors :
      Result Exception (MonitorSet W) → Loop W p → Result LoopError (Unit {0}) × Loop W p
  on_monitors (ok ms) s = (ok tt, record s { monitors = ms })
  on_monitors (err e) s = (err (tape_error e), s)

  -- `World.always`
  unfoldable pub watch_always : String → (W → Bool) → Action (Loop W p) LoopError (Unit {0})
  unfolding on_monitors
  watch_always label predicate s = on_monitors (add_always label predicate s.monitors) s

  -- `World.eventually`
  unfoldable pub watch_eventually : String → (W → Bool) → ℕ → Action (Loop W p) LoopError (Unit {0})
  unfolding on_monitors
  watch_eventually label predicate within s =
      if leb within 0
      then (err (tape_error value_error), s)
      else on_monitors (add_eventually label predicate (s.now + within) s.monitors) s

  -- `World.leads_to`
  unfoldable pub watch_leads_to :
      String → (W → Bool) → (W → Bool) → ℕ → Action (Loop W p) LoopError (Unit {0})
  unfolding on_monitors
  watch_leads_to label trigger response within s =
      on_monitors (add_leads_to label trigger response within s.monitors) s

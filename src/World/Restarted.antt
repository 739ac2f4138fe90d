-- ===== src/World/Restarted.antt =====
-- What the restart of a host runs again.
use simloom.Prelude.{
  String, suc, ◌+◌, Bool, true, false, not, Option, none, some, List, [], ◌∷◌, ◌++◌, ◌≡◌, refl, sym,
  ap, ◌∙◌, arith, if◌then◌else◌, map, length, length-append, append_assoc, append-nil, err, After,
  bind-After, weaken-After,
}
use simloom.Tape.{Prng}
use simloom.Loop.{runtime_error, Body, LoopHandle, Loop, emit, emit_at}
use simloom.Loop.Calls.{check_closed, push_ready}
use simloom.Loop.Requests.{register_task, create_task}
use simloom.World.{
  Host, entry_of, target_of, registered, spawn_on, spawn, has_raw, spawn_each, switch_on, restart,
}

map-append : {A B : Type 0} (f : A → B) (xs ys : List A) → map f (xs ++ ys) ≡ map f xs ++ map f ys
map-append f [] ys = refl
map-append f (x ∷ xs) ys = ap (λ l. f x ∷ l) (map-append f xs ys)

module _ {W : Type 0} where
  -- The bodies that the factories make.
  abbrev pub factories : List (Option (Body W)) → List (Body W)
  factories [] = []
  factories (none ∷ es) = factories es
  factories (some body ∷ es) = body ∷ factories es

module _ {W : Type 0} {p : Prng} where
  -- A host behind some spawns on it: the entries, and a task and a ready step for each.
  pub record Spawned (es : List (Option (Body W))) (h : Host W) (s : Loop W p) (h' : Host W)
      (s' : Loop W p) : Type 0 where
    pub same_disk : h'.disk ≡ h.disk
    pub same_generation : h'.generation ≡ h.generation
    pub is_up : h'.crashed ≡ false
    pub new_entries : h'.entries ≡ h.entries ++ es
    pub new_tasks : length s'.tasks ≡ length s.tasks + length es
    pub new_steps :
        map (λ g. LoopHandle.body g) s'.ready ≡ map (λ g. LoopHandle.body g) s.ready ++ factories es

  -- One spawn of a factory.
  pub record SpawnedOne (body : Body W) (h : Host W) (s : Loop W p) (h' : Host W) (s' : Loop W p)
      : Type 0 where
    pub spawned : Spawned (some body ∷ []) h s h' s'
    pub is_open : s'.closed ≡ false

  spawn-SpawnedOne :
      (body : Body W) (current : Option String) (h : Host W) (s : Loop W p)
      → h.crashed ≡ false
      → s.closed ≡ false
      → After
          (λ o x. SpawnedOne body h s x.0 x.1)
          (λ e x. ⊥)
          (spawn (target_of body) none current (h, s))
  unfolding spawn spawn_on registered create_task check_closed push_ready register_task entry_of
      target_of emit emit_at
  spawn-SpawnedOne body current h s up opened =
      rw (up, opened, After)
        (record {
          spawned = record {
            same_disk = refl;
            same_generation = refl;
            is_up = refl;
            new_entries = refl;
            new_tasks = length-append s.tasks _;
            new_steps = map-append (λ g. LoopHandle.body g) s.ready _;
          };
          is_open = refl;
        })

  Spawned-none : (h : Host W) (s : Loop W p) → h.crashed ≡ false → Spawned [] h s h s
  Spawned-none h s up = record {
    same_disk = refl;
    same_generation = refl;
    is_up = up;
    new_entries = sym (append-nil h.entries);
    new_tasks = omega arith;
    new_steps = sym (append-nil _);
  }

  Spawned-cons :
      (body : Body W) (es : List (Option (Body W))) (h h' k : Host W) (s s' t : Loop W p)
      → Spawned (some body ∷ []) h s h' s'
      → Spawned es h' s' k t
      → Spawned (some body ∷ es) h s k t
  Spawned-cons body es h h' k s s' t a b = record {
    same_disk = b.same_disk ∙ a.same_disk;
    same_generation = b.same_generation ∙ a.same_generation;
    is_up = b.is_up;
    new_entries =
        b.new_entries
        ∙ ap (λ l. l ++ es) a.new_entries
        ∙ append_assoc h.entries (some body ∷ []) es;
    new_tasks = omega (arith, b.new_tasks, a.new_tasks);
    new_steps =
        b.new_steps
        ∙ ap (λ l. l ++ factories es) a.new_steps
        ∙ append_assoc (map (λ g. LoopHandle.body g) s.ready) (body ∷ []) (factories es);
  }

  spawn_each-Spawned :
      (es : List (Option (Body W))) (current : Option String) (h : Host W) (s : Loop W p)
      → has_raw es ≡ false
      → h.crashed ≡ false
      → s.closed ≡ false
      → After (λ u x. Spawned es h s x.0 x.1) (λ e x. ⊥) (spawn_each es current (h, s))
  unfolding spawn_each has_raw
  spawn_each-Spawned [] current h s f up opened = Spawned-none h s up
  spawn_each-Spawned (none ∷ es) current h s f up opened = cc
  spawn_each-Spawned (some body ∷ es) current h s f up opened =
      bind-After (λ o x. SpawnedOne body h s x.0 x.1) (λ u x. Spawned (some body ∷ es) h s x.0 x.1)
        (λ e x. ⊥) (spawn (target_of body) none current) (λ o. spawn_each es current) (h, s)
        (spawn-SpawnedOne body current h s up opened)
        (λ o x a.
          weaken-After (λ u y. Spawned es x.0 x.1 y.0 y.1)
            (λ u y. Spawned (some body ∷ es) h s y.0 y.1) (λ e y. ⊥) (λ e y. ⊥)
            (spawn_each es current x)
            (spawn_each-Spawned es current x.0 x.1 f a.spawned.is_up a.is_open)
            (λ u y b. Spawned-cons body es h x.0 y.0 s x.1 y.1 a.spawned b) (λ e y z. z))

  -- A host that restarts.
  pub record Restarted (h : Host W) (s : Loop W p) (h' : Host W) (s' : Loop W p) : Type 0 where
    pub same_disk : h'.disk ≡ h.disk
    pub next_generation : h'.generation ≡ suc h.generation
    pub is_up : h'.crashed ≡ false
    pub same_entries : h'.entries ≡ h.entries
    pub new_tasks : length s'.tasks ≡ length s.tasks + length h.entries
    pub new_steps :
        map (λ g. LoopHandle.body g) s'.ready
        ≡ map (λ g. LoopHandle.body g) s.ready ++ factories h.entries

  -- The restart of a crashed host whose entries are all factories, on a loop that is not closed,
  -- raises nothing: the host is up, in the next generation, with the same disk and the same
  -- entries, and there is one new task for each entry and one new ready step, with the bodies of
  -- the factories in their order.
  pub restart-Restarted :
      (current : Option String) (h : Host W) (s : Loop W p)
      → h.crashed ≡ true
      → has_raw h.entries ≡ false
      → s.closed ≡ false
      → After (λ u x. Restarted h s x.0 x.1) (λ e x. ⊥) (restart current (h, s))
  unfolding restart switch_on emit emit_at
  restart-Restarted current h s off f opened = on_tests h.crashed (has_raw h.entries) off f (
      weaken-After (λ u x. Spawned h.entries (switch_on (h, s)).0 (switch_on (h, s)).1 x.0 x.1)
        (λ u x. Restarted h s x.0 x.1) (λ e x. ⊥) (λ e x. ⊥)
        (spawn_each h.entries current (switch_on (h, s)))
        (spawn_each-Spawned h.entries current (switch_on (h, s)).0 (switch_on (h, s)).1 f refl
          opened)
        (λ u x b. record {
          same_disk = b.same_disk;
          next_generation = b.same_generation;
          is_up = b.is_up;
          same_entries = b.new_entries;
          new_tasks = b.new_tasks;
          new_steps = b.new_steps;
        })
        (λ e x z. z))
    where
      on_tests :
          (a b : Bool)
          → a ≡ true
          → b ≡ false
          → After
              (λ u x. Restarted h s x.0 x.1)
              (λ e x. ⊥)
              (spawn_each h.entries current (switch_on (h, s)))
          → After
              (λ u x. Restarted h s x.0 x.1)
              (λ e x. ⊥)
              (if not a
                then (err (runtime_error "host is not crashed"), (h, s))
                else if b
                then (err (runtime_error "host was spawned with raw coroutine objects"), (h, s))
                else spawn_each h.entries current (switch_on (h, s)))
      on_tests true false p q r = r
      on_tests true true p q r = cc
      on_tests false b p q r = cc

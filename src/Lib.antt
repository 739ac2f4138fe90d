-- ===== src/Lib.antt =====
-- The deterministic simulator of src/simloom: a model of its parts, and the theorems that make
-- them correct.
--
-- A run of the simulator is decided by a choice tape. All nondeterminism of a simulated program,
-- the pick of the next callback, the latency of a message, the fate of a write at a power cut, is
-- a draw below a bound from the tape, which records it. A recorded tape can be replayed, explored
-- systematically, and shrunk. The parts:
--
-- Tape: src/simloom/_tape.py. `Tape p` is the object's state, over a generator p that stands for
-- random.Random: its seeding is free, and what randrange(n) answers is below n. `draw` is
-- Tape.draw with _next_value and _diverge; it is an action that returns or raises beside the
-- state that is left, as what was written before a raise stays written. `generate` and `replay`
-- are the class methods.
--
-- Tape/Document has the serialized tape: `serialize_draws`, `to_dict` and `draws_from_dict` on
-- JSON values, and `loads` and `dumps` over a printer and a parser that stand for json.dumps and
-- json.loads.
--
-- Run: run, replay and _execute of src/simloom/_run.py. A program under test is a `Program`, the
-- tree of the draws it asks for: `request label k next rescue` draws below k + 1, goes on by
-- `next`, and makes the draws of `rescue`, those of the teardown, if the draw raises. A run has
-- no other input, since clock, network and scheduler are the simulator's own and take their
-- choices from the tape. `execute` drives the tree, and decides the verdict and the tape of the
-- result; the value, the event log and the coverage of a RunResult are not modelled.
--
-- Systematic: src/simloom/_systematic.py, the odometer over schedules. `next_plan` is the loop
-- over `index`, `explore_from` the outer one. It recurs on the schedules that are left of
-- max_schedules, so its fuel is the source's own bound.
--
-- Shrink: src/simloom/_shrink.py. `Shrinking` has the variables of `shrink`. The three passes
-- recur on the runs that are left and, between runs, on the draws from the index on; a pass
-- starts with max_runs and the length of the tape, and it cannot make more runs than that, nor
-- take more steps without one. The outer loop is given max_runs + 1 rounds: a round that improves
-- makes a run. Programs are replayed through Run.
--
-- Monitors: src/simloom/_monitors.py. Predicates are functions of the user's state, and virtual
-- times are numbers of ticks, where the source has floating point seconds; `after_step`,
-- `next_deadline`, `fire_due` and `finalize` are the methods, with the early returns that leave
-- the later monitors as they were.
--
-- Disk: SimDisk of src/simloom/_world.py. Dictionaries are association lists with string keys in
-- the order of insertion. `power_cut` is _power_cut, which draws the fate of each buffered path
-- from the tape of Tape.
--
-- World: the hosts of src/simloom/_world.py. A host's methods act on the host and the loop. A
-- factory is the body that it makes; the dictionary of weak references to tasks is given by the
-- tasks that _spawn registered and by the place in the loop's tasks from which create_task
-- registered the others, since clear() only forgets tasks that are done or crashed. What crash
-- does to connections, endpoints and servers is left out with the network.
--
-- Sched: src/simloom/_sched.py. `walk_pick` and `pct_pick` are the two pick methods; a handle is
-- given by what its callback is bound to, and the priorities are an association list with signed
-- numbers. The picks draw from the tape of Tape, and may raise as it does.
--
-- Loop: src/simloom/_loop.py, with src/simloom/_buggify.py and the list of events of
-- src/simloom/_eventlog.py. `Loop W p` has the fields of SimLoop, over the state W of the program
-- under test; times are ticks, and the heap is a list in the order of its tuples. A callback is a
-- `Body`, the tree of the calls that it makes of the loop, each with the reply that it goes on
-- by; a handle carries its callback's body, so the theorems are of all callbacks. Loop/Calls and
-- Loop/Requests have the methods that callbacks call and `run_body`, which is Handle._run of
-- asyncio; asyncio.Task is seen as what it asks of the loop, its first step and its done
-- callback. Loop/Waiting and Loop/Step are _run_once in its order, and Loop/Teardown the loop
-- around it, of which `turns n` makes n turns at most: a simulated program need not end.
-- `drain_ready` recurs on what is left of the source's own limit. The handles that were cancelled
-- are a list of identities, as a handle is cancelled from outside the loop.
--
-- Loop/Erased, Loop/Unmonitored, Loop/Passing, Loop/Unseen and Loop/Unwatched compare the loop
-- with the loop without monitors, from a request of a callback to a run of many turns.
--
-- Loop/Effects and Loop/Moves have relations of the states before and after a callback and a
-- turn, and Loop/Waited and Loop/Chosen the outcomes of the parts of a turn, from which the
-- theorems follow. Strong references, weak ones and the garbage collector have no counterpart but
-- the event of a collection, nor have threads but the flag of a foreign caller; the exception
-- handler is the default one, and no task factory is set.
--
-- Consistency: src/simloom/_consistency.py. `dependency_graph` is check_serializable up to its
-- search for a cycle. A value is a number, and what an operation carries is of its kind's type.
-- Consistency/Unread says what a read has not seen of a version order, Consistency/Edges what the
-- dependencies between transactions are; Consistency/Links and Consistency/Complete go from these
-- to the edges.
--
-- Soak: src/simloom/_soak.py. `shard_seed` and `soak`, whose loop recurs on count - index; a
-- checkpoint file is the value of its JSON document, or none. Seeds, shards and counts are
-- natural numbers. Each seed is run by Run.
--
-- Explore holds the record of a failure that src/simloom/_explore.py and Systematic share,
-- Prelude the lists, texts, dictionaries and actions that all use, and Fixtures the programs of
-- the examples. Each part has its tests and the instances of its theorems in a child module
-- Examples.
--
-- Exceptions are data: the errors of the simulator are constructors, and what a program raises
-- has a type name and a message. The number of delays is a natural number, so the refusal of a
-- negative max_delays has no counterpart.
--
-- Not modelled: the network, World.until and assert_converged, the texts that name a scheduler,
-- the search for a cycle of the consistency checker, explore and its process pool, the text and
-- digest of the event log, and the fingerprints; of the loop the executors, the async generators
-- and the calls that leave the simulation, which raise; the patches of the standard library, the
-- stand-in services, the pytest plugin and the command line, which are glue to the interpreter
-- and to files.
pub mod Prelude
pub mod Fixtures
pub mod Tape
pub mod Run
pub mod Explore
pub mod Systematic
pub mod Shrink
pub mod Monitors
pub mod Disk
pub mod Sched
pub mod Soak
pub mod Loop
pub mod World
pub mod Consistency

-- ===== src/Disk.antt =====
-- src/simloom/_world.py: the disk of a host, `SimDisk`.
pub mod View
pub mod PowerCut
pub mod Files
pub mod Reachable
mod Examples
use simloom.Prelude.{
  ℕ, suc, ◌+◌, ◌-◌, String, Bool, true, false, not, ◌&&◌, Option, none, some, List, [], ◌∷◌, ltb,
  ◌==◌, str_eq, if◌then◌else◌, length, take, Result, ok, err, Action, pure, ◌>>=◌, ◌>>◌, Dict,
  lookup, put, pop, keys, sorted,
}
use simloom.Tape.{Prng, Exception, Tape, draw}

-- `bytes`: each a number below 256.
abbrev pub Bytes : Type 0
Bytes = List ℕ

pub data DiskError : Type 0 where
  file_not_found : String → DiskError

-- A buffered None is a pending delete.
pub record SimDisk : Type 0 where
  pub synced : Dict Bytes
  pub buffered : Dict (Option Bytes)

pub new_disk : SimDisk
new_disk = record { synced = []; buffered = [] }

pub write : String → Bytes → SimDisk → SimDisk
write path contents d = record d { buffered = put path (some contents) d.buffered }

pub read : String → SimDisk → Result DiskError Bytes
read path d = elim (lookup path d.buffered) [
  | some none ↦ err (file_not_found path)
  | some (some contents) ↦ ok contents
  | none ↦ elim (lookup path d.synced) [
    | some contents ↦ ok contents
    | none ↦ err (file_not_found path)
  ]
]

pub is_there : Option (Option Bytes) → Bool → Bool
is_there (some none) synced = false
is_there (some (some contents)) synced = true
is_there none synced = synced

pub is_some : {A : Type 0} → Option A → Bool
is_some none = false
is_some (some a) = true

pub exists : String → SimDisk → Bool
exists path d = is_there (lookup path d.buffered) (is_some (lookup path d.synced))

pub delete : String → SimDisk → Result DiskError SimDisk
delete path d =
    if not (exists path d)
    then err (file_not_found path)
    else ok (record d { buffered = put path none d.buffered })

-- `_commit`
pub commit : String → Option Bytes → SimDisk → SimDisk
commit path none d = record d { synced = pop path d.synced }
commit path (some contents) d = record d { synced = put path contents d.synced }

pub commit_all : Dict (Option Bytes) → SimDisk → SimDisk
commit_all [] d = d
commit_all ((path, contents) ∷ items) d = commit_all items (commit path contents d)

pub drop_unsynced : SimDisk → SimDisk
drop_unsynced d = record d { buffered = [] }

-- `fsync(path)`, of a path that has a buffered value or none.
pub fsync_path : String → Option (Option Bytes) → SimDisk → SimDisk
fsync_path path none d = d
fsync_path path (some contents) d =
    commit path contents (record d { buffered = pop path d.buffered })

pub fsync : Option String → SimDisk → SimDisk
fsync (some path) d = fsync_path path (lookup path d.buffered) d
fsync none d = drop_unsynced (commit_all d.buffered d)

pub discard : String → List String → List String
discard path [] = []
discard path (q ∷ qs) = let rest = discard path qs in if str_eq q path then rest else q ∷ rest

pub add : String → List String → List String
add path [] = path ∷ []
add path (q ∷ qs) = let rest = add path qs in if str_eq q path then q ∷ qs else q ∷ rest

-- The set `visible`, as a list without repetitions.
pub visible : Dict (Option Bytes) → List String → List String
visible [] paths = paths
visible ((path, none) ∷ items) paths = visible items (discard path paths)
visible ((path, some contents) ∷ items) paths = visible items (add path paths)

pub files : SimDisk → List String
files d = sorted (visible d.buffered (keys d.synced))

module _ {p : Prng} where
  abbrev pub draw_fate : String → ℕ → Action (SimDisk × Tape p) Exception ℕ
  draw_fate label bound (d, t) = let (r, t') = draw label bound t in (r, (d, t'))

  abbrev pub commit_now : String → Option Bytes → Action (SimDisk × Tape p) Exception (Unit {0})
  commit_now path contents (d, t) = (ok tt, (commit path contents d, t))

  -- A buffered write is lost at fate 0, torn at 1, and flushed at 2.
  pub cut_write : String → Bytes → ℕ → Action (SimDisk × Tape p) Exception (Unit {0})
  cut_write path contents fate =
      if fate == 1 && ltb 1 (length contents)
      then (draw_fate "disk.tear" (length contents - 1) >>= λ tear.
          commit_now path (some (take (1 + tear) contents)))
      else if fate == 2
      then commit_now path (some contents)
      else pure tt

  -- A buffered delete had hit the disk at fate 1.
  pub cut_delete : String → ℕ → Action (SimDisk × Tape p) Exception (Unit {0})
  cut_delete path fate = if fate == 1 then commit_now path none else pure tt

  pub cut_value : String → Option Bytes → Action (SimDisk × Tape p) Exception (Unit {0})
  cut_value path none = draw_fate "disk.fate" 2 >>= cut_delete path
  cut_value path (some contents) = draw_fate "disk.fate" 3 >>= cut_write path contents

  -- A path of the loop is always buffered.
  pub cut_buffered : String → Option (Option Bytes) → Action (SimDisk × Tape p) Exception (Unit {0})
  cut_buffered path none = pure tt
  cut_buffered path (some contents) = cut_value path contents

  pub cut_path : String → Action (SimDisk × Tape p) Exception (Unit {0})
  cut_path path (d, t) = cut_buffered path (lookup path d.buffered) (d, t)

  pub cut_paths : List String → Action (SimDisk × Tape p) Exception (Unit {0})
  cut_paths [] = pure tt
  cut_paths (path ∷ paths) = cut_path path >>= λ _. cut_paths paths

  pub clear_buffered : Action (SimDisk × Tape p) Exception (Unit {0})
  clear_buffered (d, t) = (ok tt, (drop_unsynced d, t))

  -- `_power_cut(tape)`
  pub power_cut : Action (SimDisk × Tape p) Exception (Unit {0})
  power_cut (d, t) = (cut_paths (sorted (keys d.buffered)) >>= λ _. clear_buffered) (d, t)

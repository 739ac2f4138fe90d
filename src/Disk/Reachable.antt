-- ===== src/Disk/Reachable.antt =====
-- The disks that a run of src/simloom/_world.py gets to, and their invariant.
use simloom.Prelude.{String, Option, Result, ok, ◌≡◌}
use simloom.Tape.{Prng, Exception, Tape}
use simloom.Disk.{Bytes, SimDisk, new_disk, write, delete, fsync, power_cut}
use simloom.Disk.View.{IsWellFormed}

-- The disks that come of a new one by the operations of a host and by power cuts, also by one that raises
-- because the tape refused a draw.
pub data IsReachable (p : Prng) : SimDisk → Type 0 where
  fresh : IsReachable p new_disk
  written :
      (path : String) (contents : Bytes) (d : SimDisk)
      → IsReachable p d
      → IsReachable p (write path contents d)
  deleted :
      (path : String) (d d' : SimDisk) → IsReachable p d → delete path d ≡ ok d' → IsReachable p d'
  synced : (o : Option String) (d : SimDisk) → IsReachable p d → IsReachable p (fsync o d)
  cut : (d : SimDisk) (t : Tape p) → IsReachable p d → IsReachable p (power_cut (d, t)).1.0

module _ {p : Prng} where
  -- Where the disk stays well-formed whatever the tape answers.
  abbrev Keeps : Result Exception (Unit {0}) × (SimDisk × Tape p) → Type 0
  Keeps r = IsWellFormed r.1.0

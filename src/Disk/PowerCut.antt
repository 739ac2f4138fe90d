-- ===== src/Disk/PowerCut.antt =====
-- `SimDisk._power_cut` of src/simloom/_world.py: what survives of the buffered writes.
use simloom.Prelude.{
  ℕ, ◌<◌, String, Option, none, some, [], length, take, Result, ok, err, lookup, ◌≡◌, ◌⊎◌,
}
use simloom.Tape.{Prng, Exception, Tape, draw}
use simloom.Tape.Drawing
use simloom.Tape.Drawing.{IsLenient, Recorded}
use simloom.Disk.{Bytes, SimDisk}
use simloom.Disk.View.{durable}

-- What may be durable after a power cut, by what was buffered and what was durable before.
abbrev pub Outcome : Option (Option Bytes) → Option Bytes → Option Bytes → Type 0
Outcome none before after = after ≡ before
Outcome (some none) before after = (after ≡ before) ⊎ (after ≡ none)
Outcome (some (some contents)) before after =
    (after ≡ before)
    ⊎ ((after ≡ some contents)
        ⊎ ((n : ℕ) × (0 < n) × (n < length contents) × (after ≡ some (take n contents))))

-- From the disk `d` to the disk `d'`, each path has an outcome by what `d` has buffered.
abbrev pub Survives : SimDisk → SimDisk → Type 0
Survives d d' = (q : String) → Outcome (lookup q d.buffered) (durable d q) (durable d' q)

module _ {p : Prng} where
  -- A part of the power cut that started at the disk `d` came to its end.
  record Cutting (d : SimDisk) (r : Result Exception (Unit {0}) × (SimDisk × Tape p)) : Type 0 where
    disk : SimDisk
    tape : Tape p
    returned : r ≡ (ok tt, (disk, tape))
    tape_valid : Drawing.IsWellFormed tape
    lenient : IsLenient tape
    kept : disk.buffered ≡ d.buffered
    survives : Survives d disk

  -- A draw of a tape that improvises, and what it leaves.
  record Drawn (t : Tape p) (label : String) (bound : ℕ) : Type 0 where
    value : ℕ
    tape : Tape p
    drew : draw label bound t ≡ (ok value, tape)
    in_range : value < bound
    tape_valid : Drawing.IsWellFormed tape
    lenient : IsLenient tape

  -- A power cut that came to its end, with an empty buffer cache.
  abbrev pub IsCut : SimDisk → Result Exception (Unit {0}) × (SimDisk × Tape p) → Type 0
  IsCut d (ok done, (d', t)) = (d'.buffered ≡ []) × Survives d d'
  IsCut d (err e, (d', t)) = ⊥

-- ===== src/Disk/Examples.antt =====
-- A disk with a log and its index, and the theorems of Disk at it.
use simloom.Prelude.{none, some, [], ◌∷◌, if◌then◌else◌, err, ◌≡◌, refl, lookup, put, pop}
use simloom.Fixtures.{counting}
use simloom.Tape.{Tape, fallback, zero_random, replay_with, draw, randrange}
use simloom.Tape.Drawing
use simloom.Tape.Drawing.{drawn, IsLenient}
use simloom.Disk.{
  SimDisk, file_not_found, new_disk, write, read, is_there, is_some, exists, delete, commit,
  commit_all, drop_unsynced, fsync_path, fsync, discard, add, visible, files, cut_write, cut_delete,
  cut_value, cut_buffered, cut_path, cut_paths, clear_buffered, power_cut,
}
use simloom.Disk.View.{IsWellFormed, durable, view, asked, fsync-durable, Refines, disk-Refines}
use simloom.Disk.Files.{listed, listed-files}

program : Unit {0}
unfolding lookup put pop new_disk write read is_there is_some exists delete commit commit_all
    drop_unsynced fsync_path fsync discard add visible files cut_write cut_delete cut_value
    cut_buffered cut_path cut_paths clear_buffered power_cut draw randrange replay_with
program = tt

-- The log is durable, and written again; the index is only buffered.
abbrev disk : SimDisk
disk = record {
  synced = ("log", 1 ∷ 2 ∷ []) ∷ [];
  buffered = ("log", some (7 ∷ 8 ∷ 9 ∷ [])) ∷ ("index", some (5 ∷ [])) ∷ [];
}

disk-writes :
    write "index"
      (5 ∷ [])
      (write "log" (7 ∷ 8 ∷ 9 ∷ []) (fsync none (write "log" (1 ∷ 2 ∷ []) new_disk)))
    ≡ disk
unfolding program
disk-writes = refl

files-disk : files disk ≡ "index" ∷ "log" ∷ []
unfolding program
files-disk = refl

read-missing : read "data" disk ≡ err (file_not_found "data")
unfolding program
read-missing = refl

delete-missing : delete "data" disk ≡ err (file_not_found "data")
unfolding program
delete-missing = refl

-- The index is flushed, and the log torn behind its second byte.
abbrev tape : Tape counting
tape =
    replay_with {p = counting}
      (drawn "disk.fate" 2 3 ∷ drawn "disk.fate" 1 3 ∷ drawn "disk.tear" 1 2 ∷ []) fallback 0
      zero_random

cut-disk :
    (power_cut (disk, tape)).1.0
    ≡ record { synced = ("log", 7 ∷ 8 ∷ []) ∷ ("index", 5 ∷ []) ∷ []; buffered = [] }
unfolding program
cut-disk = refl

disk-IsWellFormed : IsWellFormed disk
unfolding program
disk-IsWellFormed = record { synced = (refl, tt); buffered = (refl, (refl, tt)) }

fsync-durable_example :
    durable (fsync (some "log") disk) "index"
    ≡ (if asked (some "log") "index" then view disk "index" else durable disk "index")
fsync-durable_example = fsync-durable (some "log") disk "index" disk-IsWellFormed

disk-Refines_example : Refines disk
disk-Refines_example = disk-Refines disk disk-IsWellFormed

listed-files_example : listed "index" (files disk) ≡ exists "index" disk
listed-files_example = listed-files "index" disk disk-IsWellFormed

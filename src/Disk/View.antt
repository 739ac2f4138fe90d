-- ===== src/Disk/View.antt =====
-- What a program sees of its disk, and what is durable.
use simloom.Prelude.{
  String, Bool, true, false, Option, none, some, [], ◌∷◌, str_eq, arith, eq_iff, if◌then◌else◌,
  Result, ok, err, Dict, lookup, put, pop, lookup-put, lookup-pop, IsDict, ap₂, ◌≡◌, refl, sym, ap,
  ◌∙◌, Bool-cases, Option-cases, inl, inr,
}
use simloom.Disk.{
  Bytes, DiskError, file_not_found, SimDisk, write, read, is_there, is_some, exists, delete, commit,
  commit_all, drop_unsynced, fsync_path, fsync,
}

abbrev overlay : Option (Option Bytes) → Option Bytes → Option Bytes
overlay none synced = synced
overlay (some contents) synced = contents

-- The contents of a file as a program sees them: of the buffer cache, where it has the path.
abbrev pub view : SimDisk → String → Option Bytes
view d path = overlay (lookup path d.buffered) (lookup path d.synced)

-- The contents that a power cut leaves in the worst case.
abbrev pub durable : SimDisk → String → Option Bytes
durable d path = lookup path d.synced

pub is_same : (a b : String) → str_eq a b ≡ true → a ≡ b
is_same a b h = ground (arith, eq_iff a b)

pub commit-durable :
    (path : String) (contents : Option Bytes) (d : SimDisk) (q : String)
    → durable (commit path contents d) q ≡ (if str_eq path q then contents else durable d q)
unfolding commit
commit-durable path none d q = lookup-pop q path d.synced
commit-durable path (some contents) d q = lookup-put q path contents d.synced

pub commit-buffered :
    (path : String) (contents : Option Bytes) (d : SimDisk)
    → (commit path contents d).buffered ≡ d.buffered
unfolding commit
commit-buffered path none d = refl
commit-buffered path (some contents) d = refl

commit_all-buffered :
    (items : Dict (Option Bytes)) (d : SimDisk) → (commit_all items d).buffered ≡ d.buffered
unfolding commit_all
commit_all-buffered [] d = refl
commit_all-buffered ((path, contents) ∷ items) d =
    commit_all-buffered items (commit path contents d) ∙ commit-buffered path contents d

-- The path that is committed was buffered, so nothing that is seen changes.
overlay_same :
    (path q : String) (contents : Option Bytes) (d : SimDisk)
    → lookup path d.buffered ≡ some contents
    → overlay
        (if str_eq path q then none else lookup q d.buffered)
        (if str_eq path q then contents else durable d q)
      ≡ view d q
overlay_same path q contents d e = elim (Bool-cases (str_eq path q)) [
  | inr differs ↦ rw differs refl
  | inl same ↦ rw (same, sym (is_same path q same), e) refl
]

fsync_path-view :
    (path : String) (d : SimDisk) (q : String)
    → view (fsync_path path (lookup path d.buffered) d) q ≡ view d q
unfolding fsync_path
fsync_path-view path d q = elim (Option-cases (lookup path d.buffered)) [
  | inl e ↦ rw e refl
  | inr (contents, e) ↦
      let popped : SimDisk = record d { buffered = pop path d.buffered } in
      rw e (
        ap₂ overlay
          (ap (lookup q) (commit-buffered path contents popped) ∙ lookup-pop q path d.buffered)
          (commit-durable path contents popped q)
        ∙ overlay_same path q contents d e)
]

fsync_path-durable :
    (path : String) (d : SimDisk) (q : String)
    → durable (fsync_path path (lookup path d.buffered) d) q
      ≡ (if str_eq path q then view d q else durable d q)
unfolding fsync_path
fsync_path-durable path d q = elim (Option-cases (lookup path d.buffered)) [
  | inl e ↦ elim (Bool-cases (str_eq path q)) [
    | inr differs ↦ rw (e, differs) refl
    | inl same ↦ rw (e, same, sym (is_same path q same), e) refl
  ]
  | inr (contents, e) ↦ rw e (
      commit-durable path contents (record d { buffered = pop path d.buffered }) q
      ∙ elim (Bool-cases (str_eq path q)) [
        | inr differs ↦ rw differs refl
        | inl same ↦ rw (same, sym (is_same path q same), e) refl
      ])
]

commit_all-durable :
    (items : Dict (Option Bytes)) (d : SimDisk) (q : String)
    → IsDict items
    → durable (commit_all items d) q ≡ overlay (lookup q items) (durable d q)
unfolding commit_all lookup
commit_all-durable [] d q u = refl
commit_all-durable ((path, contents) ∷ items) d q u =
    commit_all-durable items (commit path contents d) q u.1
    ∙ ap (overlay (lookup q items)) (commit-durable path contents d q)
    ∙ elim (Bool-cases (str_eq path q)) [
      | inr differs ↦ rw differs refl
      | inl same ↦ rw (same, sym (is_same path q same), u.0) refl
    ]

-- Each path has one buffered value, and one that is durable.
pub record IsWellFormed (d : SimDisk) : Type 0 where
  pub synced : IsDict d.synced
  pub buffered : IsDict d.buffered

-- What `fsync` was asked to make durable.
abbrev pub asked : Option String → String → Bool
asked none q = true
asked (some path) q = str_eq path q

fsync-view :
    (o : Option String) (d : SimDisk) (q : String) → IsWellFormed d → view (fsync o d) q ≡ view d q
unfolding fsync drop_unsynced lookup
fsync-view (some path) d q w = fsync_path-view path d q
fsync-view none d q w = commit_all-durable d.buffered d q w.buffered

-- After `fsync`, what a program sees of a path that was asked for is durable, and what is durable of the
-- others stays as it was.
pub fsync-durable :
    (o : Option String) (d : SimDisk) (q : String)
    → IsWellFormed d
    → durable (fsync o d) q ≡ (if asked o q then view d q else durable d q)
unfolding fsync drop_unsynced
fsync-durable (some path) d q w = fsync_path-durable path d q
fsync-durable none d q w = commit_all-durable d.buffered d q w.buffered

abbrev answer : String → Option Bytes → Result DiskError Bytes
answer path none = err (file_not_found path)
answer path (some contents) = ok contents

-- The disk is a map from paths to contents.
pub record Refines (d : SimDisk) : Type 0 where
  pub reads : (q : String) → read q d ≡ answer q (view d q)
  pub exist : (q : String) → exists q d ≡ is_some (view d q)
  pub writes :
      (path : String) (contents : Bytes) (q : String)
      → view (write path contents d) q ≡ (if str_eq path q then some contents else view d q)
  pub refused : (path : String) → view d path ≡ none → delete path d ≡ err (file_not_found path)
  pub deletes :
      (path : String) (contents : Bytes)
      → view d path ≡ some contents
      → (d' : SimDisk) × (delete path d ≡ ok d')
        × ((q : String) → view d' q ≡ (if str_eq path q then none else view d q))
  pub syncs : (o : Option String) (q : String) → view (fsync o d) q ≡ view d q

read-view : (q : String) (d : SimDisk) → read q d ≡ answer q (view d q)
unfolding read
read-view q d = ground arith

exists-view : (q : String) (d : SimDisk) → exists q d ≡ is_some (view d q)
unfolding exists is_there is_some
exists-view q d = ground arith

buffer-view :
    (path : String) (contents : Option Bytes) (d : SimDisk) (q : String)
    → view (record d { buffered = put path contents d.buffered }) q
      ≡ (if str_eq path q then contents else view d q)
buffer-view path contents d q = elim (Bool-cases (str_eq path q)) [
  | inl same ↦ rw (lookup-put q path contents d.buffered, same) refl
  | inr differs ↦ rw (lookup-put q path contents d.buffered, differs) refl
]

delete-exists :
    (path : String) (d : SimDisk)
    → exists path d ≡ true
    → delete path d ≡ ok (record d { buffered = put path none d.buffered })
unfolding delete
delete-exists path d e = rw e refl

delete-missing :
    (path : String) (d : SimDisk)
    → exists path d ≡ false
    → delete path d ≡ err (file_not_found path)
unfolding delete
delete-missing path d e = rw e refl

-- A disk behaves as a map from paths to contents: `read` answers what the map has, and raises where it
-- has nothing; `write` replaces one path; `delete` removes a path that is there, and raises for the
-- others; `fsync` changes nothing that is seen.
pub disk-Refines : (d : SimDisk) → IsWellFormed d → Refines d
unfolding write is_some
disk-Refines d w = record {
  reads = λ q. read-view q d;
  exist = λ q. exists-view q d;
  writes = λ path contents q. buffer-view path (some contents) d q;
  refused = λ path e. delete-missing path d (exists-view path d ∙ ap is_some e);
  deletes = λ path contents e. (
    record d { buffered = put path none d.buffered },
    delete-exists path d (exists-view path d ∙ ap is_some e),
    (λ q. buffer-view path none d q),
  );
  syncs = λ o q. fsync-view o d q w;
}

-- ===== src/Disk/Files.antt =====
-- `SimDisk.files` of src/simloom/_world.py.
use simloom.Prelude.{
  String, Bool, true, false, ◌||◌, Option, none, some, List, [], ◌∷◌, any, str_eq, str_le, arith,
  eq_iff, if◌then◌else◌, Dict, lookup, insert, sorted, keys, IsDict, ◌≡◌, refl, sym, ap, ◌∙◌,
  Bool-cases, inl, inr,
}
use simloom.Disk.{Bytes, SimDisk, is_there, is_some, exists, discard, add, visible, files}
use simloom.Disk.View.{IsWellFormed, is_same}

-- `q in paths`
abbrev pub listed : String → List String → Bool
listed q paths = any (λ path. str_eq path q) paths

or_swap : (a b c : Bool) → a || (b || c) ≡ b || (a || c)
or_swap true true c = refl
or_swap true false c = refl
or_swap false b c = refl

listed-insert : (q k : String) (l : List String) → listed q (insert k l) ≡ listed q (k ∷ l)
listed-insert q k [] = refl
listed-insert q k (j ∷ l) = elim (Bool-cases (str_le k j)) [
  | inl e ↦ rw e refl
  | inr e ↦ rw e (
      ap (λ b. str_eq j q || b) (listed-insert q k l)
      ∙ or_swap (str_eq j q) (str_eq k q) (listed q l))
]

listed-sorted : (q : String) (l : List String) → listed q (sorted l) ≡ listed q l
listed-sorted q [] = refl
listed-sorted q (k ∷ l) =
    listed-insert q k (sorted l) ∙ ap (λ b. str_eq k q || b) (listed-sorted q l)

listed-discard :
    (q path : String) (l : List String)
    → listed q (discard path l) ≡ (if str_eq path q then false else listed q l)
unfolding discard
listed-discard q path [] = ground arith
listed-discard q path (j ∷ l) =
    ground (arith, listed-discard q path l, eq_iff j path, eq_iff j q, eq_iff path q)

listed-add :
    (q path : String) (l : List String)
    → listed q (add path l) ≡ (if str_eq path q then true else listed q l)
unfolding add
listed-add q path [] = ground arith
listed-add q path (j ∷ l) =
    ground (arith, listed-add q path l, eq_iff j path, eq_iff j q, eq_iff path q)

listed-keys : (q : String) (d : Dict Bytes) → listed q (keys d) ≡ is_some (lookup q d)
unfolding lookup is_some
listed-keys q [] = refl
listed-keys q ((k, v) ∷ l) = ground (arith, listed-keys q l)

is_there-none : (o : Option (Option Bytes)) (b : Bool) → o ≡ none → is_there o b ≡ b
unfolding is_there
is_there-none o b e = rw e refl

listed-visible :
    (q : String) (items : Dict (Option Bytes)) (paths : List String)
    → IsDict items
    → listed q (visible items paths) ≡ is_there (lookup q items) (listed q paths)
unfolding visible is_there lookup
listed-visible q [] paths u = refl
listed-visible q ((path, none) ∷ items) paths u =
    listed-visible q items (discard path paths) u.1
    ∙ ap (is_there (lookup q items)) (listed-discard q path paths)
    ∙ elim (Bool-cases (str_eq path q)) [
      | inr differs ↦ rw differs refl
      | inl same ↦ rw (same, sym (is_same path q same), u.0) refl
    ]
listed-visible q ((path, some contents) ∷ items) paths u =
    listed-visible q items (add path paths) u.1
    ∙ ap (is_there (lookup q items)) (listed-add q path paths)
    ∙ elim (Bool-cases (str_eq path q)) [
      | inr differs ↦ rw differs refl
      | inl same ↦ rw (same, sym (is_same path q same), u.0) refl
    ]

-- `files` lists the paths that exist, and no others.
pub listed-files : (q : String) (d : SimDisk) → IsWellFormed d → listed q (files d) ≡ exists q d
unfolding files exists
listed-files q d w =
    listed-sorted q (visible d.buffered (keys d.synced))
    ∙ listed-visible q d.buffered (keys d.synced) w.buffered
    ∙ ap (is_there (lookup q d.buffered)) (listed-keys q d.synced)

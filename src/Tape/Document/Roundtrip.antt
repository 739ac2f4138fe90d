-- ===== src/Tape/Document/Roundtrip.antt =====
-- Reading back what src/simloom/_tape.py has serialized, and what it accepts.
use simloom.Prelude.{
  ℕ, String, Option, none, some, List, [], ◌∷◌, Result, ok, err, bind_result, ℤ, pos, negsuc, Dict,
  lookup, ◌≡◌, refl, arith, All, Bool-cases, inl, inr, ltb,
}
use simloom.Tape.{Exception, Draw, new_draw, Prng, Tape, MisalignmentPolicy, replay}
use simloom.Tape.Drawing.{IsValid, IsWellFormed}
use simloom.Tape.Document.{
  Json, null, boolean, number, decimal, text, array, object, Items, end, item, Members, equals,
  is_text, integer, label_of, three_of, entry_of, match_three, read_entry, read_entries, read_draws,
  draws_from_dict, entry_value, entries_value, serialize_draws, to_dict, members_dict, load_value,
  loads, dumps,
}

read-entry_value : (d : Draw) → IsValid d → read_entry (entry_value d) ≡ ok d
unfolding read_entry match_three three_of label_of entry_value entry_of integer new_draw
read-entry_value d v = ground (arith, v)

read-entries_value : (ds : List Draw) → All IsValid ds → read_entries (entries_value ds) ≡ ok ds
unfolding read_entries entries_value
read-entries_value [] v = refl
read-entries_value (d ∷ ds) v = rw (read-entry_value d v.0, read-entries_value ds v.1) refl

-- The draws of a document that serializes valid draws are read back as they were.
pub draws_from_dict-serialize_draws :
    (ds : List Draw) (seed : Option ℕ)
    → All IsValid ds
    → draws_from_dict (serialize_draws ds seed) ≡ ok ds
unfolding draws_from_dict serialize_draws is_text equals lookup read_draws
draws_from_dict-serialize_draws ds seed v = read-entries_value ds v

-- The document of a well-formed tape is read back as the draws that the tape recorded.
pub draws_from_dict-to_dict :
    {p : Prng} (t : Tape p) → IsWellFormed t → draws_from_dict (to_dict t) ≡ ok t.draws
unfolding to_dict
draws_from_dict-to_dict t w = draws_from_dict-serialize_draws t.draws t.seed w.draws_valid

-- What a reading gives, if anything, satisfies the predicate.
abbrev pub Gives : {A : Type 0} → (A → Type 0) → Result Exception A → Type 0
Gives P (ok a) = P a
Gives P (err e) = Unit

new_draw-IsValid : (label : String) (value bound : ℤ) → Gives IsValid (new_draw label value bound)
unfolding new_draw
new_draw-IsValid label (pos value) (pos bound) = elim (Bool-cases (ltb bound 1)) [
  | inl e ↦ rw e tt
  | inr e ↦ elim (Bool-cases (ltb value bound)) [
    | inl lt ↦ rw (e, lt) (ground arith)
    | inr ge ↦ rw (e, ge) tt
  ]
]
new_draw-IsValid label (pos value) (negsuc bound) = tt
new_draw-IsValid label (negsuc value) bound = tt

entry_of-IsValid :
    (label : Option String) (value bound : Option ℤ) → Gives IsValid (entry_of label value bound)
unfolding entry_of
entry_of-IsValid (some label) (some value) (some bound) = new_draw-IsValid label value bound
entry_of-IsValid (some label) (some value) none = tt
entry_of-IsValid (some label) none bound = tt
entry_of-IsValid none value bound = tt

match_three-IsValid : (o : Option (Json × Json × Json)) → Gives IsValid (match_three o)
unfolding match_three
match_three-IsValid none = tt
match_three-IsValid (some (label, value, bound)) =
    entry_of-IsValid (label_of label) (integer value) (integer bound)

Gives-cons :
    (r : Result Exception Draw) (rs : Result Exception (List Draw))
    → Gives IsValid r
    → Gives (All IsValid) rs
    → Gives (All IsValid) (bind_result r (λ d. bind_result rs (λ ds. ok (d ∷ ds))))
Gives-cons (ok d) (ok ds) h k = (h, k)
Gives-cons (ok d) (err e) h k = tt
Gives-cons (err e) rs h k = tt

read_entries-IsValid : (entries : Items) → Gives (All IsValid) (read_entries entries)
unfolding read_entries read_entry
read_entries-IsValid end = tt
read_entries-IsValid (item entry rest) =
    Gives-cons (read_entry entry) (read_entries rest) (match_three-IsValid (three_of entry))
      (read_entries-IsValid rest)

read_draws-IsValid : (o : Option Json) → Gives (All IsValid) (read_draws o)
unfolding read_draws
read_draws-IsValid none = tt
read_draws-IsValid (some (array entries)) = read_entries-IsValid entries
read_draws-IsValid (some null) = tt
read_draws-IsValid (some (boolean b)) = tt
read_draws-IsValid (some (number z)) = tt
read_draws-IsValid (some (decimal o)) = tt
read_draws-IsValid (some (text s)) = tt
read_draws-IsValid (some (object members)) = tt

-- Whatever the document, the draws that are read from it, if it is accepted, are below their bounds.
pub draws_from_dict-IsValid :
    (document : Dict Json) → Gives (All IsValid) (draws_from_dict document)
unfolding draws_from_dict
draws_from_dict-IsValid document =
    elim (Bool-cases (is_text "simloom-tape" (lookup "format" document))) [
      | inr other ↦ rw other tt
      | inl tape ↦ elim (Bool-cases (equals 1 (lookup "version" document))) [
        | inr newer ↦ rw (tape, newer) tt
        | inl first ↦ rw (tape, first) (read_draws-IsValid (lookup "draws" document))
      ]
    ]

draws_from_dict-same :
    (a b : Dict Json)
    → ((key : String) → lookup key a ≡ lookup key b)
    → draws_from_dict a ≡ draws_from_dict b
unfolding draws_from_dict
draws_from_dict-same a b h = rw (h "format", h "version", h "draws") refl

-- A tape that was dumped is loaded as the replay of its draws, if `json.loads` reads what `json.dumps`
-- printed as an object with the same members, in any order.
pub loads-dumps :
    (p : Prng) (t : Tape p) (json_dumps : Dict Json → String)
    (json_loads : String → Result Exception Json) (members : Members) (policy : MisalignmentPolicy)
    (fallback_seed : ℕ)
    → IsWellFormed t
    → json_loads (json_dumps (to_dict t)) ≡ ok (object members)
    → ((key : String) → lookup key (members_dict members) ≡ lookup key (to_dict t))
    → loads p json_loads (dumps json_dumps t) policy fallback_seed
      ≡ replay p t.draws policy fallback_seed "rng"
unfolding loads dumps load_value
loads-dumps p t json_dumps json_loads members policy fallback_seed w printed same =
    rw
      (
        printed,
        draws_from_dict-same (members_dict members) (to_dict t) same,
        draws_from_dict-to_dict t w,
      )
      refl

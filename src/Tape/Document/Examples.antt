-- ===== src/Tape/Document/Examples.antt =====
-- Documents of tapes, and the theorems of Tape/Document at them.
use simloom.Prelude.{
  String, [], ◌∷◌, Dict, lookup, true, ok, err, Result, All, pos, arith, eq_iff, str_eq, subst,
  Bool-cases, inl, inr, ◌≡◌, refl,
}
use simloom.Fixtures.{counting}
use simloom.Tape.{
  Exception, value_error, program_error, new_draw, Tape, generate, draw, randrange, strict, replay,
}
use simloom.Tape.Drawing.{IsValid, IsWellFormed}
use simloom.Tape.Document.{
  Json, boolean, number, text, array, object, item, end, Members, closed, member, equals, is_text,
  integer, label_of, three_of, entry_of, match_three, read_entry, read_entries, read_draws,
  draws_from_dict, seed_value, entry_value, entries_value, serialize_draws, to_dict, members_dict,
  load_value, loads, dumps,
}
use simloom.Tape.Document.Roundtrip.{
  Gives, draws_from_dict-to_dict, draws_from_dict-IsValid, loads-dumps,
}

program : Unit {0}
unfolding lookup new_draw generate draw randrange equals is_text integer label_of three_of entry_of
    match_three read_entry read_entries read_draws draws_from_dict seed_value entry_value
    entries_value serialize_draws to_dict members_dict load_value loads dumps
program = tt

-- The tape of seed 4 after two draws.
abbrev tape : Tape counting
tape = (draw "b" 3 (draw "a" 2 (generate counting 4)).1).1

abbrev document : Dict Json
document =
    ("format", text "simloom-tape")
    ∷ ("version", number (pos 1))
    ∷ ("seed", number (pos 4))
    ∷ (
      "draws",
      array (
          item (array (item (text "a") (item (number (pos 0)) (item (number (pos 2)) end)))) (
            item (array (item (text "b") (item (number (pos 2)) (item (number (pos 3)) end))))
              end)),
    )
    ∷ []

to_dict-tape : to_dict tape ≡ document
unfolding program
to_dict-tape = refl

read-version :
    draws_from_dict (("format", text "simloom-tape") ∷ ("version", number (pos 2)) ∷ [])
    ≡ err value_error
unfolding program
read-version = refl

read-nothing :
    draws_from_dict (("format", text "simloom-tape") ∷ ("version", boolean true) ∷ [])
    ≡ err (program_error "KeyError" "draws")
unfolding program
read-nothing = refl

tape-IsWellFormed : IsWellFormed tape
unfolding program
tape-IsWellFormed = record {
  recorded_valid = tt;
  draws_valid = (omega arith, (omega arith, tt));
  counted = refl;
}

draws_from_dict-to_dict_example : draws_from_dict (to_dict tape) ≡ ok tape.draws
draws_from_dict-to_dict_example = draws_from_dict-to_dict tape tape-IsWellFormed

draws_from_dict-IsValid_example : Gives (All IsValid) (draws_from_dict document)
draws_from_dict-IsValid_example = draws_from_dict-IsValid document

-- `json.dumps` with sorted keys, and `json.loads`, at the one text.
abbrev sorted_members : Members
sorted_members =
    member "draws"
      (array (
        item (array (item (text "a") (item (number (pos 0)) (item (number (pos 2)) end))))
          (item (array (item (text "b") (item (number (pos 2)) (item (number (pos 3)) end)))) end)))
      (member "format" (text "simloom-tape")
        (member "seed" (number (pos 4)) (member "version" (number (pos 1)) closed)))

abbrev print : Dict Json → String
print d = "document"

abbrev parse : String → Result Exception Json
parse s = ok (object sorted_members)

-- The two objects have the same value at a key.
abbrev Agree : String → Type 0
Agree key = lookup key (members_dict sorted_members) ≡ lookup key (to_dict tape)

by_name : (k key : String) → Agree k → str_eq k key ≡ true → Agree key
by_name k key h e = subst Agree (ground (arith, eq_iff k key)) h

sorted_lem : (key : String) → Agree key
unfolding program
sorted_lem key = elim (Bool-cases (str_eq "draws" key)) [
  | inl e ↦ by_name "draws" key refl e
  | inr d ↦ elim (Bool-cases (str_eq "format" key)) [
    | inl e ↦ by_name "format" key refl e
    | inr f ↦ elim (Bool-cases (str_eq "seed" key)) [
      | inl e ↦ by_name "seed" key refl e
      | inr s ↦ elim (Bool-cases (str_eq "version" key)) [
        | inl e ↦ by_name "version" key refl e
        | inr v ↦ rw (d, f, s, v) refl
      ]
    ]
  ]
]

loads-dumps_example :
    loads counting parse (dumps print tape) strict 0 ≡ replay counting tape.draws strict 0 "rng"
loads-dumps_example =
    loads-dumps counting tape print parse sorted_members strict 0 tape-IsWellFormed refl sorted_lem

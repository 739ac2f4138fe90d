-- ===== src/Tape/Document.antt =====
-- The serialized tape of src/simloom/_tape.py: `serialize_draws`, `to_dict` and `draws_from_dict`.
pub mod Roundtrip
mod Examples
use simloom.Prelude.{
  ℕ, zero, suc, ◌+◌, String, Bool, true, false, not, Option, none, some, List, [], ◌∷◌, ◌==◌,
  str_eq, if◌then◌else◌, Result, ok, err, bind_result, ℤ, pos, negsuc, Dict, lookup, ◌≡◌, refl, sym,
  ap, ◌∙◌, arith, All, Bool-cases, inl, inr, ltb, ◌<◌, eq_refl,
}
use simloom.Tape.{
  Exception, value_error, program_error, Draw, new_draw, Prng, Tape, MisalignmentPolicy, replay,
}

-- A value that `json.loads` gives. A number with a decimal point has a value here where it is whole.
mutual
  pub data Json : Type 0 where
    null : Json
    boolean : Bool → Json
    number : ℤ → Json
    decimal : Option ℤ → Json
    text : String → Json
    array : Items → Json
    object : Members → Json

  pub data Items : Type 0 where
    end : Items
    item : Json → Items → Items

  pub data Members : Type 0 where
    closed : Members
    member : String → Json → Members → Members

-- `value == n`; a truth value is a number too.
pub equals : ℕ → Option Json → Bool
equals n (some (boolean b)) = (if b then 1 else 0) == n
equals n (some (number (pos m))) = m == n
equals n (some (decimal (some (pos m)))) = m == n
equals n o = false

pub is_text : String → Option Json → Bool
is_text s (some (text t)) = str_eq t s
is_text s o = false

-- The pattern `int(value)`, which a truth value matches too.
pub integer : Json → Option ℤ
integer (boolean b) = some (pos (if b then 1 else 0))
integer (number z) = some z
integer j = none

-- The pattern `str(label)`.
pub label_of : Json → Option String
label_of (text label) = some label
label_of j = none

-- A list of three values.
pub three_of : Json → Option (Json × Json × Json)
three_of (array (item label (item value (item bound end)))) = some (label, value, bound)
three_of j = none

pub entry_of : Option String → Option ℤ → Option ℤ → Result Exception Draw
entry_of (some label) (some value) (some bound) = new_draw label value bound
entry_of label value bound = err value_error

pub match_three : Option (Json × Json × Json) → Result Exception Draw
match_three none = err value_error
match_three (some (label, value, bound)) = entry_of (label_of label) (integer value) (integer bound)

-- `match entry: case [str(label), int(value), int(bound)]: Draw(label, value, bound)`
pub read_entry : Json → Result Exception Draw
read_entry entry = match_three (three_of entry)

pub read_entries : Items → Result Exception (List Draw)
read_entries end = ok []
read_entries (item entry rest) =
    bind_result (read_entry entry) (λ d. bind_result (read_entries rest) (λ ds. ok (d ∷ ds)))

pub read_draws : Option Json → Result Exception (List Draw)
read_draws none = err (program_error "KeyError" "draws")
read_draws (some (array entries)) = read_entries entries
read_draws (some j) = err value_error

-- `draws_from_dict`
pub draws_from_dict : Dict Json → Result Exception (List Draw)
draws_from_dict data_ =
    if not (is_text "simloom-tape" (lookup "format" data_))
    then err value_error
    else if not (equals 1 (lookup "version" data_))
    then err value_error
    else read_draws (lookup "draws" data_)

pub seed_value : Option ℕ → Json
seed_value none = null
seed_value (some seed) = number (pos seed)

pub entry_value : Draw → Json
entry_value d =
    array (item (text d.label) (item (number (pos d.value)) (item (number (pos d.bound)) end)))

pub entries_value : List Draw → Items
entries_value [] = end
entries_value (d ∷ ds) = item (entry_value d) (entries_value ds)

-- `serialize_draws(draws, seed=seed)`
pub serialize_draws : List Draw → Option ℕ → Dict Json
serialize_draws draws seed =
    ("format", text "simloom-tape")
    ∷ ("version", number (pos 1))
    ∷ ("seed", seed_value seed)
    ∷ ("draws", array (entries_value draws))
    ∷ []

-- `Tape.to_dict`
pub to_dict : {p : Prng} → Tape p → Dict Json
to_dict t = serialize_draws t.draws t.seed

-- The `dict` of an object.
pub members_dict : Members → Dict Json
members_dict closed = []
members_dict (member key value rest) = (key, value) ∷ members_dict rest

-- `cls.replay(draws, policy=policy, fallback_seed=fallback_seed)` of a JSON value.
pub load_value : (p : Prng) → MisalignmentPolicy → ℕ → Json → Result Exception (Tape p)
load_value p policy fallback_seed (object members) =
    bind_result (draws_from_dict (members_dict members))
      (λ draws. replay p draws policy fallback_seed "rng")
load_value p policy fallback_seed value = err value_error

-- `Tape.loads`, by the parser `json.loads`.
pub loads :
    (p : Prng)
    → (String → Result Exception Json)
    → String
    → MisalignmentPolicy
    → ℕ
    → Result Exception (Tape p)
loads p json_loads serialized policy fallback_seed =
    bind_result (json_loads serialized) (load_value p policy fallback_seed)

-- `Tape.dumps`, by the printer `json.dumps`.
pub dumps : {p : Prng} → (Dict Json → String) → Tape p → String
dumps json_dumps t = json_dumps (to_dict t)

-- ===== src/Shrink/Candidates.antt =====
-- The candidates of src/simloom/_shrink.py are tapes: each draw stays below its bound.
use simloom.Prelude.{
  ℕ, ◌+◌, ◌<◌, List, [], ◌∷◌, map, take, drop, arith, All, All-append, All-take, All-drop,
}
use simloom.Tape.{Draw}
use simloom.Tape.Drawing.{IsValid}
use simloom.Shrink.{without, zeroed, block_of, with_zeroed, with_value, descend}

pub without-IsValid :
    (index chunk : ℕ) (ds : List Draw) → All IsValid ds → All IsValid (without index chunk ds)
without-IsValid index chunk ds v =
    All-append IsValid (take index ds) (drop (index + chunk) ds) (All-take IsValid index ds v)
      (All-drop IsValid (index + chunk) ds v)

zeroed-IsValid : (ds : List Draw) → All IsValid ds → All IsValid (map zeroed ds)
zeroed-IsValid [] v = tt
zeroed-IsValid (d ∷ ds) v = (omega (arith, v.0), zeroed-IsValid ds v.1)

pub with_zeroed-IsValid :
    (index chunk : ℕ) (ds : List Draw) → All IsValid ds → All IsValid (with_zeroed index chunk ds)
with_zeroed-IsValid index chunk ds v =
    All-append IsValid (take index ds) _ (All-take IsValid index ds v) (
      All-append IsValid (map zeroed (block_of index chunk ds)) (drop (index + chunk) ds)
        (zeroed-IsValid (block_of index chunk ds)
          (All-take IsValid chunk (drop index ds) (All-drop IsValid index ds v)))
        (All-drop IsValid (index + chunk) ds v))

pub with_value-IsValid :
    (index : ℕ) (d : Draw) (smaller : ℕ) (ds : List Draw)
    → IsValid d
    → smaller < d.value
    → All IsValid ds
    → All IsValid (with_value index d smaller ds)
with_value-IsValid index d smaller ds b h v =
    All-append IsValid (take index ds) _ (All-take IsValid index ds v)
      (omega arith, All-drop IsValid (index + 1) ds v)

-- Every replacement is smaller.
pub descend-lt : (value : ℕ) → 0 < value → All (λ v. v < value) (descend value)
unfolding descend
descend-lt value h = ground arith

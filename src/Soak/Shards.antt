-- ===== src/Soak/Shards.antt =====
-- The seeds of the shards of src/simloom/_soak.py.
use simloom.Prelude.{ℕ, ◌+◌, ◌*◌, ◌≤◌, ◌-◌, ◌/◌, sym, ◌∙◌, zero, suc, ◌<◌, ◌≡◌, ap, arith}
use Prim.Native.Nat.{◌%◌}
use native.Mathlib.Nat.{suc-mul, mod-lt, div-add-mod'}
use simloom.Soak.{shard_seed}

impossible : {A : Type 0} → ⊥ → A
impossible h = absurd h

-- No seed is of two shards, and no shard has a seed twice.
shard_seed_inj :
    (start shards shard shard' index index' : ℕ)
    → shard < shards
    → shard' < shards
    → shard_seed start shards shard index ≡ shard_seed start shards shard' index'
    → (shard ≡ shard') × (index ≡ index')
unfolding shard_seed
shard_seed_inj start shards shard shard' zero zero h k e = omega (arith, e)
shard_seed_inj start shards shard shard' zero (suc index') h k e =
    impossible (omega (arith, e, h, suc-mul index' shards))
shard_seed_inj start shards shard shard' (suc index) zero h k e =
    impossible (omega (arith, e, k, suc-mul index shards))
shard_seed_inj start shards shard shard' (suc index) (suc index') h k e =
    let (same, i) =
      shard_seed_inj start shards shard shard' index index' h k
        (omega (arith, e, suc-mul index shards, suc-mul index' shards)) in
    (same, ap suc i)

seed_of :
    (start shards seed shard index : ℕ)
    → start ≤ seed
    → index * shards + shard ≡ seed - start
    → shard_seed start shards shard index ≡ seed
unfolding shard_seed
seed_of start shards seed shard index le e = omega (arith, e)

-- The seed is the one at one index of one shard.
pub record IsOfOneShard (start shards seed : ℕ) : Type 0 where
  pub shard : ℕ
  pub index : ℕ
  pub in_range : shard < shards
  pub its_seed : shard_seed start shards shard index ≡ seed
  pub unique :
      (shard' index' : ℕ)
      → shard' < shards
      → shard_seed start shards shard' index' ≡ seed
      → (shard' ≡ shard) × (index' ≡ index)

-- The shards are a partition of the seeds from `start` on: each is the seed of one shard, at one index.
pub shard_seed-IsOfOneShard :
    (start shards seed : ℕ) → 0 < shards → start ≤ seed → IsOfOneShard start shards seed
shard_seed-IsOfOneShard start shards seed h le =
    let offset = seed - start in
    let found =
      seed_of start shards seed (offset % shards) (offset / shards) le
        (div-add-mod' offset shards) in
    record {
      shard = offset % shards;
      index = offset / shards;
      in_range = mod-lt offset h;
      its_seed = found;
      unique = λ shard' index' lt e.
          shard_seed_inj start shards shard' (offset % shards) index' (offset / shards) lt
            (mod-lt offset h) (e ∙ sym found);
    }

-- ===== src/Soak/Resume.antt =====
-- `soak` of src/simloom/_soak.py runs the seeds from its cursor on, and leaves the cursor behind them.
use simloom.Prelude.{
  ℕ, zero, suc, ◌+◌, ◌-◌, ◌<◌, Bool, true, false, not, ◌&&◌, Option, some, List, [], ◌∷◌, ◌++◌, ltb,
  ◌==◌, Result, ok, err, ◌≡◌, refl, sym, ap, ◌∙◌, Bool-cases, inl, inr, arith, append-nil,
  append_assoc, ==_iff,
}
use simloom.Tape.{Prng, Exception}
use simloom.Run.{Program}
use simloom.Soak.{
  shard_seed, Checkpoint, cursor_of, set_cursor, or_zero, read_cursor, kept_cursors, write_cursor,
  SoakReport, Soaking, is_empty, save, soak_seed, soak_loop, soak_from, report, cursor, reported,
  soak,
}

cursor-set :
    (shard index : ℕ) (l : List (ℕ × ℕ)) → cursor_of shard (set_cursor shard index l) ≡ some index
unfolding cursor_of set_cursor
cursor-set shard index [] = rw ((==_iff shard shard).1 refl) refl
cursor-set shard index ((k, v) ∷ l) = elim (Bool-cases (k == shard)) [
  | inl e ↦ rw (e, e) refl
  | inr e ↦ rw (e, e) (cursor-set shard index l)
]

-- What is written to the checkpoint is read back.
read-write_cursor :
    (file : Option Checkpoint) (start shards shard index : ℕ)
    → read_cursor (some (write_cursor file start shards shard index)) start shards shard ≡ ok index
unfolding read_cursor write_cursor or_zero
read-write_cursor file start shards shard index =
    rw
      (
        (==_iff start start).1 refl,
        (==_iff shards shards).1 refl,
        cursor-set shard index (kept_cursors file start shards),
      )
      refl

module _ (p : Prng) (program : Program) (start shards shard : ℕ)
    (checkpointed stop_on_failure : Bool) where
  -- The first `n` seeds of the shard from the index on.
  abbrev pub seeds_between : (index n : ℕ) → List ℕ
  seeds_between index zero = []
  seeds_between index (suc n) = shard_seed start shards shard index ∷ seeds_between (index + 1) n

  abbrev Saved : Soaking → Type 0
  Saved s = checkpointed ≡ true → read_cursor s.file start shards shard ≡ ok s.index

  soak_seed-Saved :
      (s : Soaking) → Saved (soak_seed p program start shards shard checkpointed stop_on_failure s)
  unfolding soak_seed save
  soak_seed-Saved s c = rw c (read-write_cursor s.file start shards shard (s.index + 1))

  record Ran (left : ℕ) (s t : Soaking) : Type 0 where
    n : ℕ
    index : t.index ≡ s.index + n
    seeds : t.seeds ≡ s.seeds ++ seeds_between s.index n
    all_run : t.stopped ≡ false → n ≡ left
    saved : Saved t

  soak_loop-Ran :
      (left : ℕ) (s : Soaking)
      → Saved s
      → Ran left s (soak_loop p program start shards shard checkpointed stop_on_failure left s)
  unfolding soak_loop soak_seed
  soak_loop-Ran zero s h = record {
    n = 0;
    index = omega arith;
    seeds = sym (append-nil s.seeds);
    all_run = λ e. refl;
    saved = h;
  }
  soak_loop-Ran (suc left) s h =
      let s' = soak_seed p program start shards shard checkpointed stop_on_failure s in
      let saved = soak_seed-Saved s in
      elim (Bool-cases (not (is_empty s'.failures) && stop_on_failure)) [
        | inl stop ↦
            rw (stop, soak_loop)
              (record { n = 1; index = refl; seeds = refl; all_run = λ e. cc; saved = saved })
        | inr on ↦
            let x = soak_loop-Ran left s' saved in
            rw (on, soak_loop)
              (record {
                n = suc x.n;
                index = omega (arith, x.index);
                seeds =
                    x.seeds
                    ∙ append_assoc s.seeds (shard_seed start shards shard s.index ∷ [])
                        (seeds_between (s.index + 1) x.n);
                all_run = λ e. ap suc (x.all_run e);
                saved = x.saved;
              })
      ]

  -- What a soak did from its cursor `index`.
  pub record Slice (index count : ℕ) (r : SoakReport) (file : Option Checkpoint) : Type 0 where
    pub n : ℕ
    pub next : r.next_index ≡ index + n
    pub seeds : r.seeds ≡ seeds_between index n
    pub all_run : r.stopped_early ≡ false → n ≡ count - index
    pub saved : checkpointed ≡ true → read_cursor file start shards shard ≡ ok r.next_index

  abbrev pub IsSlice : (index count : ℕ) → Result Exception SoakReport × Option Checkpoint → Type 0
  IsSlice index count (ok r, file) = Slice index count r file
  IsSlice index count (err e, file) = ⊥

  in_range :
      (count : ℕ) (file : Option Checkpoint)
      → shard < shards
      → soak p program start shards shard checkpointed stop_on_failure count file
        ≡ reported p program start shards shard checkpointed stop_on_failure count file
            (cursor p program start shards shard checkpointed stop_on_failure file)
  unfolding soak
  in_range count file h = elim (Bool-cases (ltb shards 1)) [
    | inl e ↦ absurd (ground (arith, h, e))
    | inr e ↦ elim (Bool-cases (ltb shard shards)) [
      | inl e' ↦ rw (e, e') refl
      | inr e' ↦ absurd (ground (arith, h, e'))
    ]
  ]

  cursor-Saved :
      (file : Option Checkpoint) (index : ℕ)
      → cursor p program start shards shard checkpointed stop_on_failure file ≡ ok index
      → checkpointed ≡ true
      → read_cursor file start shards shard ≡ ok index
  unfolding cursor
  cursor-Saved file index h c = rw c at h

  -- A soak of a shard in range whose cursor can be read runs the seeds of the shard from the cursor on, in
  -- order and with none left out: all up to `count`, unless it stops early. Its report and, if there is
  -- a checkpoint, the file have the cursor behind them, so that a resumed soak goes on there.
  pub soak-IsSlice :
      (count index : ℕ) (file : Option Checkpoint)
      → shard < shards
      → cursor p program start shards shard checkpointed stop_on_failure file ≡ ok index
      → IsSlice index count
          (soak p program start shards shard checkpointed stop_on_failure count file)
  unfolding reported report soak_from
  soak-IsSlice count index file h c =
      let x =
        soak_loop-Ran (count - index)
          (record { index = index; seeds = []; failures = []; stopped = false; file = file })
          (cursor-Saved file index c) in
      rw (in_range count file h, c)
        (record { n = x.n; next = x.index; seeds = x.seeds; all_run = x.all_run; saved = x.saved })

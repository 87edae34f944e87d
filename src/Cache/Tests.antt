-- ===== src/Cache/Tests.antt =====
-- `readCell` beside a commit: two rounds, of which the first sees the old version and then the new.
use dstm_p.Common.{
  [], ◌∷◌, ℕ, zero, suc, ◌+◌, ◌^◌, ◌≤◌, ◌≡◌, refl, fun_ext, true, false, some, ◌==◌, if◌then◌else◌,
  arith, is_some,
}
use dstm_p.Timestamp.{version_ts, is_timestamps_equivalent, locked_word}
use dstm_p.Network.{Segments, flat}
use dstm_p.Cache.{
  Versions, add_version_to_cache, get_cached_version, CellRead, fetch, copy_cell, read_cell,
}
use dstm_p.Cache.Snapshot.{
  Object, Phase, idle, held, dirty, Step, stay, grant, write, publish, History,
}
use dstm_p.Cache.Table.{Unlocked, add_version_to_cache_grows}
use dstm_p.Cache.ReadCell.{view, IsState, read_cell-IsState, read_cell_returns}

-- The lock word and the value of each word of the object of 0x210048 at its owner.
abbrev memory : ℕ → ℕ → Segments
memory lock value n a = if a == 0x10000 then lock else value

-- The lock of version 4 is granted, the object written, and version 7 published.
abbrev hist : ℕ → Segments
hist zero = memory 4 10
hist (suc zero) = memory 4 10
hist (suc (suc zero)) = memory (4 + 2 ^ 63) 10
hist (suc (suc (suc zero))) = memory (4 + 2 ^ 63) 11
hist (suc (suc (suc (suc t)))) = memory 7 11

abbrev phase : ℕ → Phase
phase zero = idle
phase (suc zero) = idle
phase (suc (suc zero)) = held
phase (suc (suc (suc zero))) = dirty
phase (suc (suc (suc (suc t)))) = idle

abbrev obj : ℕ → Object
obj t = view 0x210048 0x10000 (hist t)

cell-memory :
    (l l' v : ℕ)
    → (view 0x210048 0x10000 (memory l v)).cell ≡ (view 0x210048 0x10000 (memory l' v)).cell
cell-memory l l' v = fun_ext λ o. ground arith

step : (t : ℕ) → Step (obj t) (phase t) (obj (suc t)) (phase (suc t))
unfolding locked_word
step zero = stay refl refl refl
step (suc zero) =
    grant 4 refl (omega arith) (omega arith) refl refl (cell-memory (4 + 2 ^ 63) 4 10) refl
step (suc (suc zero)) = write (λ e. cc) refl refl
step (suc (suc (suc zero))) = publish (λ e. cc) refl (omega arith) refl
step (suc (suc (suc (suc t)))) = stay refl refl refl

history : History obj phase
history = record { start = λ _. refl; step = step }

abbrev result : CellRead
result = record {
  version = 7;
  value = 11;
  copied = some (copy_cell (flat 0) hist 11 0x210048);
  now = 20;
}

read_cell-IsState_example : IsState hist 0x210048 0x10000 result
unfolding read_cell fetch copy_cell is_timestamps_equivalent
read_cell-IsState_example =
    read_cell-IsState (flat 0) hist 0x210048 0x10000 history 2 0 result refl refl

late : (u : ℕ) → 4 ≤ u → (obj u).lock ≡ (obj 4).lock
late zero h = absurd (omega arith)
late (suc zero) h = absurd (omega arith)
late (suc (suc zero)) h = absurd (omega arith)
late (suc (suc (suc zero))) h = absurd (omega arith)
late (suc (suc (suc (suc u)))) h = refl

read_cell_returns_example : is_some (read_cell (flat 0) hist 2 0 0x210048 0x10000 false) ≡ true
read_cell_returns_example =
    read_cell_returns (flat 0) hist 0x210048 0x10000 2 0 4 false late (omega arith) (omega arith)

abbrev seen : Versions
seen = (0x210040, 4) ∷ (0x210080, 9) ∷ []

-- Version 6 of node 1, over version 4.
add_version_to_cache_grows_example :
    Unlocked (add_version_to_cache 0x210040 0x1000000000006 seen)
    × ((a : ℕ)
        → version_ts (get_cached_version a seen)
          ≤ version_ts (get_cached_version a (add_version_to_cache 0x210040 0x1000000000006 seen)))
add_version_to_cache_grows_example =
    add_version_to_cache_grows 0x210040 0x1000000000006 seen (refl, (refl, tt))

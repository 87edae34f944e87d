-- ===== src/Malloc.antt =====
-- src/dstm_malloc/dstm_malloc.cpp: shared memory is given out from a rising counter of units of
-- 2 ^ MAU_SIZE bytes, and never taken back. An `int` is its bit pattern, below 2 ^ 32.
pub mod Units
pub mod Remote
mod Tests
use dstm_p.Common.{
  ℕ, ◌+◌, ◌-◌, ◌*◌, ◌/◌, ◌%◌, ◌^◌, Bool, true, false, Option, none, some, List, [], ◌∷◌, ltb, ◌==◌,
  if◌then◌else◌, bit_or,
}
use dstm_p.Timestamp.{to_node_ts, node_from_address, addr_from_address}
use dstm_p.Network.{Segments, store}

-- MAU_SIZE
abbrev pub mau_size : ℕ
mau_size = 3

-- LOW_BOUND and ALL_UNITS of a node, `me`.
pub record Arena : Type 0 where
  pub me : ℕ
  pub low_bound : ℕ
  pub all_units : ℕ

-- `dstm_malloc_init` on a new process.
unfoldable pub init : ℕ → ℕ → Arena
init me low_bound = record { me = me; low_bound = low_bound; all_units = 0 }

-- An `int` converted to 64 bits.
abbrev pub extend : ℕ → ℕ
extend w = if ltb w (2 ^ 31) then w else w + 2 ^ 64 - 2 ^ 32

-- The units that a size takes.
unfoldable pub units_of : ℕ → ℕ
units_of size =
    let units = size / 2 ^ mau_size % 2 ^ 32 in
    if ltb (extend (units * 2 ^ mau_size % 2 ^ 32)) size
    then (size / 2 ^ mau_size + 1) % 2 ^ 32
    else units

-- `dstm_malloc(size, UINT_MAX)`; `none` is NULL.
unfoldable pub malloc : ℕ → Arena → Option ℕ × Arena
unfolding units_of
malloc size a =
    let offset = a.all_units in
    let a' = record a { all_units = (a.all_units + units_of size) % 2 ^ 32 } in
    if offset == 2 ^ 32 - 1 then (none, a') else (
      some (
          bit_or ((a.low_bound + extend (offset * 2 ^ mau_size % 2 ^ 32)) % 2 ^ 64)
            (to_node_ts a.me)),
      a',
    )

-- Calls one after another: the pointers, and the arena after them.
unfoldable pub malloc_all : List ℕ → Arena → List (Option ℕ) × Arena
unfolding malloc
malloc_all [] a = ([], a)
malloc_all (size ∷ sizes) a =
    let (p, a') = malloc size a in let (ps, a'') = malloc_all sizes a' in (p ∷ ps, a'')

-- `dstm_free` on the node `me` that holds the object, called there, or by `dstmfree_medhandler` for
-- another node: its first unit is set to zero. `none` asks the owner for this.
unfoldable pub free : ℕ → ℕ → Segments → Option Segments
free me ptr s =
    if node_from_address ptr == me then some (store s me (addr_from_address ptr) 0) else none

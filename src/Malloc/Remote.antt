-- ===== src/Malloc/Remote.antt =====
-- Allocation for another node: `dstm_malloc` and `dstm_free` of src/dstm_malloc/dstm_malloc.cpp, the requests
-- of src/glue.cpp and their handlers in src/gasnet_handlers.cpp. A request and its reply are one step of the
-- caller, since it waits for the reply.
use dstm_p.Common.{
  ℕ, ◌-◌, ◌%◌, ◌^◌, ◌<◌, ◌≡◌, refl, ◌∙◌, false, Option, none, some, ◌==◌, if◌then◌else◌, arith,
  Bool-cases, inl, inr,
}
use dstm_p.Timestamp.{node_from_address, addr_from_address}
use dstm_p.Network.{Segments, store}
use dstm_p.Malloc.{Arena, extend, malloc, free}

-- GASNETI_HIWORD, GASNETI_LOWORD and UNPACK2 of GASNet: a pointer as two arguments of a handler.
pub record Halves : Type 0 where
  pub hiword : ℕ → ℕ
  pub loword : ℕ → ℕ
  pub unpack2 : ℕ → ℕ → ℕ
  pub unpack2_law : (p : ℕ) → p < 2 ^ 64 → unpack2 (hiword p) (loword p) ≡ p

-- The arenas of all nodes, and the memory of the calling process, by address.
pub record Heap : Type 0 where
  pub arenas : ℕ → Arena
  pub memory : ℕ → ℕ

abbrev pub write_word : ℕ → ℕ → (ℕ → ℕ) → ℕ → ℕ
write_word a v m x = if x == a then v else m x

-- The pointer that a call returns; NULL is zero.
abbrev pub pointer : Option ℕ → ℕ
pointer none = 0
pointer (some p) = p

-- A `size_t` as gasnet_handlerarg_t, a 32-bit integer.
abbrev pub to_harg : ℕ → ℕ
to_harg size = size % 2 ^ 32

-- `dstmmalloc_shrthandler` on a node: what it sends back behind the caller's addresses, and the arena.
unfoldable pub dstmmalloc_shrthandler : Halves → ℕ → Arena → (ℕ × ℕ) × Arena
dstmmalloc_shrthandler h size a =
    let (p, a1) = malloc (extend size) a in ((h.hiword (pointer p), h.loword (pointer p)), a1)

-- `dstmmalloc_succ_shrthandler`: the pointer and the flag are written to the caller's memory.
unfoldable pub dstmmalloc_succ_shrthandler : Halves → ℕ × ℕ → ℕ × ℕ → ℕ × ℕ → (ℕ → ℕ) → ℕ → ℕ
dstmmalloc_succ_shrthandler h (ptr_h, ptr_l) (mutex_h, mutex_l) (returned_h, returned_l) m =
    write_word (h.unpack2 mutex_h mutex_l) 1
      (write_word (h.unpack2 ptr_h ptr_l) (h.unpack2 returned_h returned_l) m)

-- `dstm_mallocMallocRequest`, up to the GASNET_BLOCKUNTIL.
unfoldable pub malloc_request : Halves → ℕ → ℕ → ℕ → ℕ → Heap → Heap
unfolding dstmmalloc_shrthandler dstmmalloc_succ_shrthandler
malloc_request h node size ptr mutex s =
    let (returned, a1) = dstmmalloc_shrthandler h (to_harg size) (s.arenas node) in
    record {
      arenas = λ n. if n == node then a1 else s.arenas n;
      memory =
          dstmmalloc_succ_shrthandler h (h.hiword ptr, h.loword ptr)
            (h.hiword mutex, h.loword mutex) returned s.memory;
    }

-- `dstm_malloc` on the node `me`, with `mem_ptr` and `mllcMtx` at these addresses: the result, unless the
-- flag is not set after the request, for which it waits.
unfoldable pub dstm_malloc : Halves → ℕ → ℕ → ℕ → ℕ → ℕ → Heap → Option (ℕ × Heap)
unfolding malloc_request
dstm_malloc h me size node mem_ptr mllc_mtx s =
    if node == 2 ^ 32 - 1
    then (let (p, a1) = malloc size (s.arenas me) in
        some (pointer p, record s { arenas = λ n. if n == me then a1 else s.arenas n }))
    else (let s1 =
          malloc_request h node size mem_ptr mllc_mtx
            (record s { memory = write_word mllc_mtx 0 s.memory }) in
        if s1.memory mllc_mtx == 1 then some (s1.memory mem_ptr, s1) else none)

-- `dstm_free` on the node `me`: there, or by `dstmfree_medhandler` on the node that the pointer names.
unfoldable pub dstm_free : ℕ → ℕ → Segments → Option Segments
dstm_free me ptr s = elim (free me ptr s) [
  | some s1 ↦ some s1
  | none ↦ free (node_from_address ptr) ptr s
]

not_here : (node : ℕ) → node < 2 ^ 15 → (node == 2 ^ 32 - 1) ≡ false
not_here node h = ground arith

-- What a request leaves in the arenas and in the caller's memory.
malloc_request_lem :
    (h : Halves) (node size ptr mutex : ℕ) (s : Heap)
    → size < 2 ^ 31
    → ptr < 2 ^ 64
    → mutex < 2 ^ 64
    → pointer (malloc size (s.arenas node)).0 < 2 ^ 64
    → ((n : ℕ)
        → (malloc_request h node size ptr mutex s).arenas n
          ≡ (if n == node then (malloc size (s.arenas node)).1 else s.arenas n))
      × ((x : ℕ)
          → (malloc_request h node size ptr mutex s).memory x
            ≡ write_word mutex 1
                (write_word ptr (pointer (malloc size (s.arenas node)).0) s.memory)
                x)
unfolding malloc_request dstmmalloc_shrthandler dstmmalloc_succ_shrthandler
malloc_request_lem h node size ptr mutex s small ptr_word mtx_word word =
    let whole : extend (to_harg size) ≡ size = ground arith in
    rw whole (
      λ n. refl,
      λ x. rw (h.unpack2_law ptr ptr_word, h.unpack2_law mutex mtx_word, h.unpack2_law _ word) refl,
    )

-- A call for another node, of a size below 2 ^ 31, returns, with the pointer that a call of `dstm_malloc` on that node
-- itself gives, if that is a 64-bit word; the arena of the node changes as by that call, no other arena changes, and of
-- the caller's memory only its two variables.
pub dstm_malloc_remote :
    (h : Halves) (me size node mem_ptr mllc_mtx : ℕ) (s : Heap)
    → size < 2 ^ 31
    → node < 2 ^ 15
    → mem_ptr < 2 ^ 64
    → mllc_mtx < 2 ^ 64
    → (mem_ptr == mllc_mtx) ≡ false
    → pointer (malloc size (s.arenas node)).0 < 2 ^ 64
    → (t : Heap) × ((dstm_malloc h me size node mem_ptr mllc_mtx s
          ≡ some (pointer (malloc size (s.arenas node)).0, t))
        × ((n : ℕ)
            → t.arenas n ≡ (if n == node then (malloc size (s.arenas node)).1 else s.arenas n))
        × ((x : ℕ) → (x == mem_ptr) ≡ false → (x == mllc_mtx) ≡ false → t.memory x ≡ s.memory x))
unfolding dstm_malloc
dstm_malloc_remote h me size node mem_ptr mllc_mtx s small known ptr_word mtx_word apart word =
    let s0 = record s { memory = write_word mllc_mtx 0 s.memory } in
    let t = malloc_request h node size mem_ptr mllc_mtx s0 in
    let (arenas, memory) =
      malloc_request_lem h node size mem_ptr mllc_mtx s0 small ptr_word mtx_word word in
    (
      t,
      (
        rw (not_here node known, memory mllc_mtx, memory mem_ptr) (ground arith),
        arenas,
        λ x no_ptr no_mtx. memory x ∙ rw (no_ptr, no_mtx) refl,
      ),
    )

-- A free called on any node sets the first unit of the object to zero on the node that the pointer names, and changes nothing
-- else.
pub dstm_free_anywhere :
    (me ptr : ℕ) (s : Segments)
    → dstm_free me ptr s ≡ some (store s (node_from_address ptr) (addr_from_address ptr) 0)
unfolding dstm_free free
dstm_free_anywhere me ptr s = elim (Bool-cases (node_from_address ptr == me)) [
  | inl e ↦ let here : node_from_address ptr ≡ me = ground arith in rw (← here) (ground arith)
  | inr e ↦ rw (dstm_free, free, e) (ground arith)
]

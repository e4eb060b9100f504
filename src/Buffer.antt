-- ===== src/Buffer.antt =====
-- `SmpBuffer`: src/buffer.c and src/buffer.h.
use libsmp.Base.{
  ℕ, ◌==◌, ◌≡◌, refl, arith, Bool, true, false, Option, none, some, List, if◌then◌else◌, ltb,
  replicate, Bool-cases, inl, inr, ◌+◌,
}
use libsmp.Heap.{Heap, alloc, free}

-- `SmpBuffer`. The free function is the caller's: what it does to the heap, or `none` for NULL.
pub record Buffer : Type 0 where
  pub data' : List ℕ
  pub maxsize : ℕ
  pub free_func : Option (Heap → Heap)
  pub statically_allocated : Bool

-- `sizeof (SmpBuffer)` on a 64-bit target
abbrev pub sizeof_buffer : ℕ
sizeof_buffer = 32

-- `smp_buffer_init`
abbrev init : List ℕ → ℕ → Option (Heap → Heap) → Bool → Buffer
init bytes maxsize free_func statically_allocated = record {
  data' = bytes;
  maxsize = maxsize;
  free_func = free_func;
  statically_allocated = statically_allocated;
}

-- `smp_buffer_free_default`
unfoldable pub free_default : Heap → Heap
free_default h = free h

-- `smp_buffer_new_allocate`: the buffer is zeroed.
unfoldable pub new_allocate : Heap → ℕ → Option Buffer × Heap
new_allocate h size =
    let (granted, h1) = alloc h sizeof_buffer in
    let (granted', h2) = alloc h1 size in
    if granted
    then (if granted'
        then (some (init (replicate size 0) size (some free_default) false), h2)
        else (none, free h2))
    else (none, h1)

-- `smp_buffer_new_from_static`
unfoldable pub new_from_static : ℕ → List ℕ → ℕ → Option (Heap → Heap) → Option Buffer
new_from_static struct_size bytes maxsize free_func =
    if ltb struct_size sizeof_buffer
    then none
    else if maxsize == 0
    then none
    else some (init bytes maxsize free_func true)

abbrev release : Option (Heap → Heap) → Heap → Heap
release none h = h
release (some f) h = f h

-- `smp_buffer_free`
unfoldable pub free_buffer : Heap → Buffer → Heap
free_buffer h b = let h1 = release b.free_func h in if b.statically_allocated then h1 else free h1

-- What an allocation of `size` bytes from `h` gives is freed without a trace.
abbrev pub IsBalanced : Heap → ℕ → Option Buffer × Heap → Type 0
IsBalanced h size (none, h') = h'.live ≡ h.live
IsBalanced h size (some b, h') =
    ((free_buffer h' b).live ≡ h.live) × (b.data' ≡ replicate size 0) × (b.maxsize ≡ size)

-- A refused allocation of a buffer leaves no block behind, and a buffer that is allocated has the
-- size asked for and holds zeros, and leaves no block behind when it is freed.
pub free_buffer-new_allocate : (h : Heap) (size : ℕ) → IsBalanced h size (new_allocate h size)
unfolding new_allocate free_buffer free_default alloc free
free_buffer-new_allocate h size = elim (Bool-cases (h.grant h.calls sizeof_buffer)) [
  | inr e ↦ rw e refl
  | inl e ↦ elim (Bool-cases (h.grant (h.calls + 1) size)) [
    | inr k ↦ rw (e, k) (omega arith)
    | inl k ↦ rw (e, k) (omega arith, refl, refl)
  ]
]

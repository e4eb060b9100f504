-- ===== src/Heap.antt =====
-- The C allocator, as the code uses it: `malloc`, `calloc`, `realloc` and `free` of libc. Whether a
-- request succeeds and what a fresh block holds is up to the environment: `grant` and `junk`.
use libsmp.Base.{ℕ, zero, suc, ◌+◌, ◌-◌, ◌≡◌, ap, refl, Bool, true, false, List, [], ◌∷◌}
use libsmp.Base.{length, if◌then◌else◌}

pub record Heap : Type 0 where
  -- the answer to the request number `i`, for `n` bytes
  pub grant : ℕ → ℕ → Bool
  -- the byte at an index of a block that `malloc` returns
  pub junk : ℕ → ℕ
  -- requests made so far
  pub calls : ℕ
  -- blocks allocated and not yet freed
  pub live : ℕ

-- `malloc (n)` and `calloc`: whether the block was granted.
unfoldable pub alloc : Heap → ℕ → Bool × Heap
alloc h n =
    let h' = record h { calls = h.calls + 1 } in
    if h.grant h.calls n then (true, record h' { live = h.live + 1 }) else (false, h')

-- `realloc (p, n)`; the flag says whether `p` is a block already (and not NULL).
unfoldable pub realloc : Heap → Bool → ℕ → Bool × Heap
realloc h old n =
    let h' = record h { calls = h.calls + 1 } in
    if h.grant h.calls n
    then (true, record h' { live = if old then h.live else h.live + 1 })
    else (false, h')

-- `free (p)` of a block that was allocated.
unfoldable pub free : Heap → Heap
free h = record h { live = h.live - 1 }

-- The contents of a block of `n` bytes from `malloc`.
unfoldable pub block_from : (ℕ → ℕ) → ℕ → ℕ → List ℕ
block_from junk i zero = []
block_from junk i (suc n) = junk i ∷ block_from junk (i + 1) n

pub length-block_from : (junk : ℕ → ℕ) (i n : ℕ) → length (block_from junk i n) ≡ n
unfolding block_from
length-block_from junk i zero = refl
length-block_from junk i (suc n) = ap suc (length-block_from junk (i + 1) n)

-- A request that the environment grants succeeds, and a call does not change the environment.
pub realloc_granted :
    (h : Heap) (old : Bool) (n : ℕ)
    → h.grant h.calls n ≡ true
    → ((realloc h old n).0 ≡ true) × ((realloc h old n).1.grant ≡ h.grant)
unfolding realloc
realloc_granted h old n e = (rw e, rw e)

pub alloc_granted :
    (h : Heap) (n : ℕ)
    → h.grant h.calls n ≡ true
    → ((alloc h n).0 ≡ true) × ((alloc h n).1.live ≡ h.live + 1)
unfolding alloc
alloc_granted h n e = (rw e, rw e)

-- ===== src/Context/OverPosix.antt =====
-- smp_context_process_fd of src/context.c over the device of src/serial-device-posix.c.
use libsmp.Base.{
  ℕ, suc, ◌<◌, length, true, ◌≡◌, ◌⊎◌, inr, refl, ap, ◌∙◌, Option, none, some, List, [], ◌∷◌, take,
  drop,
}
use libsmp.Base.Int.{ℤ}
use libsmp.Errors.{ok, err, would_block}
use libsmp.Device.Posix.System.{eagain, System}
use libsmp.Device.Posix.Port.{Port, bytes_read, read_port, errno_to_smp_error}
use libsmp.Heap.{Heap}
use libsmp.Context.State.{Context}
use libsmp.Context.Receive.{process_chunk, process_fd}
use libsmp.Context.Chunks.{returns_zero}
use libsmp.Context.Source.{Source, answers_of, process_fd-Source}

-- What POSIX says of `read` on a terminal that is open with O_NONBLOCK: it gives the first bytes of
-- those that wait, and leaves the others; where none wait, it fails with EAGAIN.
pub record NonBlocking {W : Type 0} (sys : System W) (fd : ℤ) : Type 1 where
  pub Waits : W → List ℕ → Type 0
  pub some_bytes :
      (w : W) (m b : ℕ) (bs : List ℕ)
      → Waits w (b ∷ bs)
      → ((sys.read_file w fd (suc m)).0 ≡ some (b ∷ take m bs))
        × Waits (sys.read_file w fd (suc m)).1 (drop m bs)
  pub no_bytes :
      (w : W) (m : ℕ)
      → Waits w []
      → ((sys.read_file w fd (suc m)).0 ≡ none)
        × (sys.errno (sys.read_file w fd (suc m)).1 ≡ eagain)
        × Waits (sys.read_file w fd (suc m)).1 []

module _ {W : Type 0} (sys : System W) (p : Port) (terminal : NonBlocking sys p.fd) where
  bytes_read-some :
      (r : Option (List ℕ) × W) (b : ℕ) (bs : List ℕ)
      → r.0 ≡ some (b ∷ bs)
      → bytes_read sys r ≡ (ok (b ∷ bs), r.1)
  bytes_read-some (o, w) b bs e = ap (λ t. bytes_read sys (t, w)) e

  bytes_read-none :
      (r : Option (List ℕ) × W)
      → r.0 ≡ none
      → sys.errno r.1 ≡ eagain
      → bytes_read sys r ≡ (err would_block, r.1)
  unfolding errno_to_smp_error
  bytes_read-none (o, w) e f =
      ap (λ t. bytes_read sys (t, w)) e ∙ ap (λ t. (err (errno_to_smp_error t), w)) f

  read_some :
      (w : W) (m b : ℕ) (bs : List ℕ)
      → terminal.Waits w (b ∷ bs)
      → ((read_port sys p w (suc m)).0 ≡ ok (b ∷ take m bs))
        × terminal.Waits (read_port sys p w (suc m)).1 (drop m bs)
  unfolding read_port
  read_some w m b bs v =
      let (e, v') = terminal.some_bytes w m b bs v in
      rw (bytes_read-some (sys.read_file w p.fd (suc m)) b (take m bs) e) (refl, v')

  read_none :
      (w : W) (m : ℕ)
      → terminal.Waits w []
      → (((read_port sys p w (suc m)).0 ≡ ok [])
          ⊎ ((read_port sys p w (suc m)).0 ≡ err would_block))
        × terminal.Waits (read_port sys p w (suc m)).1 []
  unfolding read_port
  read_none w m v =
      let (e, f, v') = terminal.no_bytes w m v in
      rw (bytes_read-none (sys.read_file w p.fd (suc m)) e f) (inr refl, v')

  -- A device that is open on such a terminal is a source of bytes.
  abbrev posix_source : Source W
  posix_source = record {
    read = read_port sys p;
    Waits = terminal.Waits;
    some_bytes = read_some;
    no_bytes = read_none;
  }

  -- What `smp_context_process_fd` does over the device is what it does with the bytes that wait.
  pub process_fd-posix :
      (fuel m : ℕ) (w : W) (q : List ℕ) (h : Heap) (ctx : Context)
      → terminal.Waits w q
      → length q < fuel
      → ctx.opened ≡ true
      → process_fd h ctx (answers_of (read_port sys p) fuel (suc m) w).0
        ≡ returns_zero (process_chunk h ctx q)
  process_fd-posix fuel m w q h ctx v enough o =
      (process_fd-Source posix_source fuel m w q h ctx v enough o).0

-- ===== src/Context/OverArduino.antt =====
-- smp_context_process_fd of src/context.c over the device of src/serial-device-arduino.cpp.
use libsmp.Base.{
  ℕ, zero, suc, ◌%◌, ◌<◌, ◌≡◌, inl, refl, ap, ◌∙◌, arith, false, true, some, List, [], ◌∷◌, length,
  take, drop,
}
use libsmp.Base.Int.{ℤ, pos}
use libsmp.Errors.{ok}
use libsmp.Device.Arduino.Core.{Core}
use libsmp.Device.Arduino.Port.{Port, is_zero, keep, read_loop, read_port, get_device_from_fd}
use libsmp.Heap.{Heap}
use libsmp.Context.State.{Context}
use libsmp.Context.Receive.{process_chunk, process_fd}
use libsmp.Context.Chunks.{returns_zero}
use libsmp.Context.Source.{Source, answers_of, process_fd-Source}

-- What the documentation of the core says of a device: `available` gives the number of the bytes that
-- wait, and takes none, and `read` takes the first of them.
pub record Buffered {W : Type 0} (core : Core W) (dev : ℕ) : Type 1 where
  pub Waits : W → List ℕ → Type 0
  pub counts :
      (w : W) (q : List ℕ)
      → Waits w q
      → ((core.available w dev).0 ≡ pos (length q)) × Waits (core.available w dev).1 q
  pub takes :
      (w : W) (b : ℕ) (bs : List ℕ)
      → Waits w (b ∷ bs)
      → ((core.read w dev).0 ≡ pos b) × (b < 256) × Waits (core.read w dev).1 bs

module _ {W : Type 0} (core : Core W) (devmap : List (List ℕ)) (dev : ℕ)
    (buffered : Buffered core dev) where
  keep_byte :
      (r : ℤ × W) (rest : List ℕ × W) (b : ℕ)
      → r.0 ≡ pos b
      → b < 256
      → keep core devmap r rest ≡ (b ∷ rest.0, rest.1)
  keep_byte (z, w) rest b e small =
      let whole : b % 256 ≡ b = omega arith in
      ap (λ t. keep core devmap (t, w) rest) e ∙ ap (λ t. (t ∷ rest.0, rest.1)) whole

  -- A read of at most `n` bytes takes the first `n` bytes that wait.
  read_loop-Waits :
      (n : ℕ) (w : W) (q : List ℕ)
      → buffered.Waits w q
      → ((read_loop core devmap n w dev).0 ≡ take n q)
        × buffered.Waits (read_loop core devmap n w dev).1 (drop n q)
  unfolding read_loop
  read_loop-Waits zero w q v = (refl, v)
  read_loop-Waits (suc n) w [] v = let (e, v1) = buffered.counts w [] v in rw e (refl, v1)
  read_loop-Waits (suc n) w (b ∷ bs) v =
      let (e, v1) = buffered.counts w (b ∷ bs) v in
      let w1 = (core.available w dev).1 in
      let (f, small, v2) = buffered.takes w1 b bs v1 in
      let (out, left) = read_loop-Waits n (core.read w1 dev).1 bs v2 in
      let more : is_zero (pos (suc (length bs))) ≡ false = ground arith in
      rw
        (
          e,
          more,
          keep_byte (core.read w1 dev) (read_loop core devmap n (core.read w1 dev).1 dev) b f small,
          out,
        )
        (refl, left)

module _ {W : Type 0} (core : Core W) (devmap : List (List ℕ)) (dev : ℕ)
    (buffered : Buffered core dev) (p : Port)
    (attached : get_device_from_fd core devmap p.fd ≡ some dev) where
  read_port-Waits :
      (w : W) (n : ℕ) (q : List ℕ)
      → buffered.Waits w q
      → ((read_port core devmap p w n).0 ≡ ok (take n q))
        × buffered.Waits (read_port core devmap p w n).1 (drop n q)
  unfolding read_port
  read_port-Waits w n q v =
      let (out, left) = read_loop-Waits core devmap dev buffered n w q v in
      rw attached (ap ok out, left)

  -- A device of the board that is open is a source of bytes.
  abbrev arduino_source : Source W
  arduino_source = record {
    read = read_port core devmap p;
    Waits = buffered.Waits;
    some_bytes = λ w m b bs v. read_port-Waits w (suc m) (b ∷ bs) v;
    no_bytes = λ w m v. let (e, v') = read_port-Waits w (suc m) [] v in (inl e, v');
  }

  -- What `smp_context_process_fd` does over the device is what it does with the bytes that wait.
  pub process_fd-arduino :
      (fuel m : ℕ) (w : W) (q : List ℕ) (h : Heap) (ctx : Context)
      → buffered.Waits w q
      → length q < fuel
      → ctx.opened ≡ true
      → process_fd h ctx (answers_of (read_port core devmap p) fuel (suc m) w).0
        ≡ returns_zero (process_chunk h ctx q)
  process_fd-arduino fuel m w q h ctx v enough o =
      (process_fd-Source arduino_source fuel m w q h ctx v enough o).0

-- ===== src/Context/Attached.antt =====
-- A port whose device is open keeps it through reads and interrupts of src/serial-device-avr.c.
use libsmp.Base.{ℕ, zero, suc, ◌≡◌, refl, ap, ◌∙◌, Option, none, some, List, [], ◌∷◌, set}
use libsmp.Errors.{Result, ok, err, fault}
use libsmp.Device.Avr.Uart.{UartDevice, read_loop}
use libsmp.Device.Avr.Port.{
  Port, present, device_at, put_at, get_device_from_fd, put_device, read_port,
}
use libsmp.Device.Avr.Line.{replace, Present, Present-set}
use libsmp.Context.Source.{answers_of, and_then}

-- The device of a port is one of the board's.
abbrev pub Attached : Port → Type 0
Attached p = (i : ℕ) × (p.fd ≡ some i) × Present p.devices i

pub Attached-device : (p : Port) → (a : Attached p) → get_device_from_fd p ≡ ok a.2.0
unfolding get_device_from_fd
Attached-device p (i, e, (dev, g)) = ap (device_at p.devices) e ∙ ap present g

-- a change of the open device
pub put-Attached :
    (p : Port) (d : UartDevice) → Attached p → Attached (record p { devices = put_device p d })
unfolding put_device
put-Attached p d (i, e, w) =
    let same : put_device p d ≡ set p.devices i d = ap (λ fd. put_at p.devices fd d) e in
    (i, e, rw same (Present-set p.devices i i d w))

module _ (size : ℕ) where
  read-Attached : (p : Port) (n : ℕ) → Attached p → Attached (read_port size p n).1
  unfolding read_port
  read-Attached p n a = rw (Attached-device p a) (put-Attached p (read_loop size n a.2.0).1 a)

  and_then-Attached :
      (answer : Result (List ℕ) × Port) (rest : List (Result (List ℕ)) × Port)
      → Attached answer.1
      → Attached rest.1
      → Attached (and_then answer rest).1
  and_then-Attached (ok [], p) rest a b = a
  and_then-Attached (ok (x ∷ xs), p) (rs, p') a b = b
  and_then-Attached (err e, p) rest a b = a
  and_then-Attached (fault, p) rest a b = a

  pub answers_of-Attached :
      (fuel chunk : ℕ) (p : Port)
      → Attached p
      → Attached (answers_of (read_port size) fuel chunk p).1
  unfolding answers_of
  answers_of-Attached zero chunk p a = a
  answers_of-Attached (suc fuel) chunk p a =
      let a' = read-Attached p chunk a in
      and_then-Attached (read_port size p chunk)
        (answers_of (read_port size) fuel chunk (read_port size p chunk).1) a'
        (answers_of-Attached fuel chunk (read_port size p chunk).1 a')

  pub replace-Attached :
      (p : Port) (j : ℕ) (o : Option UartDevice) → Attached p → Attached (replace size p j o)
  replace-Attached p j none a = a
  replace-Attached p j (some d) (i, e, w) = (i, e, Present-set p.devices i j d w)

  pub replace_fd : (p : Port) (j : ℕ) (o : Option UartDevice) → (replace size p j o).fd ≡ p.fd
  replace_fd p j none = refl
  replace_fd p j (some d) = refl

-- ===== src/Device/Posix/Tests.antt =====
-- A system with one terminal that refuses to be changed, with an instance of each property of
-- src/serial-device-posix.c.
use libsmp.Base.{
  ℕ, ◌≡◌, ◌≢◌, refl, arith, Bool, true, false, Option, none, some, List, [], ◌∷◌, ◌==◌,
  if◌then◌else◌,
}
use libsmp.Base.Int.{ℤ, pos, negsuc}
use libsmp.Errors.{err, io}
use libsmp.Device.Posix.System.{Errno, ebusy, ebadf, eio, enoent, Termios, System}
use libsmp.Device.Posix.Port.{Port, errno_to_smp_error, give_up, open_port}
use libsmp.Device.Posix.Lifecycle.{Tracks, Balanced, open_port-Balanced}

-- The descriptor 3 is open or not, and `errno`.
abbrev World : Type 0
World = Bool × Errno

abbrev attributes : Termios
attributes = record {
  c_iflag = λ i. true;
  c_oflag = λ i. true;
  c_cflag = λ i. true;
  c_lflag = λ i. true;
  c_cc = λ i. 0;
}

abbrev open_file : World → List ℕ → Option ℕ × World
open_file (true, e) path = (none, (true, ebusy))
open_file (false, e) [] = (none, (false, enoent))
open_file (false, e) (c ∷ path) = (some 3, (true, e))

abbrev close_file : World → ℤ → World
close_file (b, e) (negsuc n) = (b, ebadf)
close_file (b, e) (pos n) = if n == 3 then (false, e) else (b, ebadf)

abbrev system : System World
system = record {
  errno = λ w. w.1;
  open_file = open_file;
  close_file = close_file;
  isatty = λ w fd. (true, w);
  tcgetattr = λ w fd. (some attributes, w);
  tcsetattr = λ w fd term. (none, (w.0, eio));
  write_file = λ w fd bytes. (none, w);
  read_file = λ w fd n. (none, w);
  poll = λ w fd timeout. (none, w);
  cfsetispeed = λ term speed. term;
  cfsetospeed = λ term speed. term;
  cfmakeraw = λ term. term;
  speed = λ rate. rate;
  parenb = 8;
  parodd = 9;
  ixon = 10;
  ixoff = 12;
}

abbrev is_open : World → ℕ → Bool
is_open (b, e) i = if i == 3 then b else false

opens :
    (w w' : World) (path : List ℕ) (fd : ℕ)
    → open_file w path ≡ (some fd, w')
    → (is_open w fd ≡ false)
      × (is_open w' fd ≡ true)
      × ((i : ℕ) → i ≢ fd → is_open w' i ≡ is_open w i)
opens (true, e) w' path fd h = cc h
opens (false, e) w' [] fd h = cc h
opens (false, e) w' (c ∷ path) fd h = ground arith

opens_nothing :
    (w w' : World) (path : List ℕ)
    → open_file w path ≡ (none, w')
    → (i : ℕ) → is_open w' i ≡ is_open w i
opens_nothing (true, e) w' path h i = ground arith
opens_nothing (false, e) w' [] h i = ground arith
opens_nothing (false, e) w' (c ∷ path) h i = cc h

system-Tracks : Tracks system is_open
system-Tracks = record {
  opens = opens;
  opens_nothing = opens_nothing;
  closes = λ w fd. ground arith;
  closes_one = λ w fd i ne. ground arith;
  asks = λ w fd i. refl;
  gets = λ w fd i. refl;
  sets = λ w fd term i. refl;
}

abbrev closed : Port
closed = record { fd = negsuc 0 }

-- The terminal cannot be changed, so it is given up.
refused : open_port system closed (false, enoent) (1 ∷ []) ≡ (err io, closed, (false, eio))
unfolding open_port give_up errno_to_smp_error
refused = refl

open_port-Balanced_example :
    Balanced system is_open system-Tracks closed
      (false, enoent)
      (open_port system closed (false, enoent) (1 ∷ []))
open_port-Balanced_example =
    open_port-Balanced system is_open system-Tracks closed (false, enoent) (1 ∷ [])

-- ===== src/Device/Posix/Lifecycle.antt =====
-- Which file descriptors are open after smp_serial_device_open and smp_serial_device_close.
use libsmp.Base.{ℕ, ◌≡◌, ◌≢◌, refl, Bool, true, false, Option, none, some, List}
use libsmp.Base.Int.{ℤ, pos}
use libsmp.Errors.{Error, ok, err}
use libsmp.Device.Descriptors.{OneMore, OneMore-keeps, OneMore-closed}
use libsmp.Device.Posix.System.{Termios, System}
use libsmp.Device.Posix.Port.{
  Port, Opened, give_up, configured, with_attributes, with_file, after_open, open_port, close_port,
  raw, errno_to_smp_error,
}

-- What the documentation of the calls says of the open descriptors: `open` gives one that was not
-- open, `close` closes its own, whatever it returns, and no call touches another.
pub record Tracks {W : Type 0} (sys : System W) (is_open : W → ℕ → Bool) : Type 0 where
  pub opens :
      (w w' : W) (path : List ℕ) (fd : ℕ)
      → sys.open_file w path ≡ (some fd, w')
      → (is_open w fd ≡ false)
        × (is_open w' fd ≡ true)
        × ((i : ℕ) → i ≢ fd → is_open w' i ≡ is_open w i)
  pub opens_nothing :
      (w w' : W) (path : List ℕ)
      → sys.open_file w path ≡ (none, w')
      → (i : ℕ) → is_open w' i ≡ is_open w i
  pub closes : (w : W) (fd : ℕ) → is_open (sys.close_file w (pos fd)) fd ≡ false
  pub closes_one : (w : W) (fd i : ℕ) → i ≢ fd → is_open (sys.close_file w (pos fd)) i ≡ is_open w i
  pub asks : (w : W) (fd : ℤ) (i : ℕ) → is_open (sys.isatty w fd).1 i ≡ is_open w i
  pub gets : (w : W) (fd : ℤ) (i : ℕ) → is_open (sys.tcgetattr w fd).1 i ≡ is_open w i
  pub sets :
      (w : W) (fd : ℤ) (term : Termios) (i : ℕ)
      → is_open (sys.tcsetattr w fd term).1 i ≡ is_open w i

module _ {W : Type 0} (sys : System W) (is_open : W → ℕ → Bool) (tracks : Tracks sys is_open) where
  close-OneMore :
      {w w1 : W} {fd : ℕ}
      → OneMore (is_open w) (is_open w1) fd
      → (i : ℕ) → is_open (sys.close_file w1 (pos fd)) i ≡ is_open w i
  close-OneMore {w} {w1} {fd} m =
      OneMore-closed m (tracks.closes w1 fd) (λ i ne. tracks.closes_one w1 fd i ne)

  -- How an attempt to open the device ends: with its descriptor open and in the device, which closing
  -- it undoes, or with an error, the device and the open descriptors as they were.
  pub data Balanced (p : Port) (w : W) : Opened sys → Type 0 where
    gained :
        (fd : ℕ) (w' : W)
        → OneMore (is_open w) (is_open w') fd
        → ((i : ℕ) → is_open (close_port sys (record { fd = pos fd }) w').1 i ≡ is_open w i)
        → Balanced p w (ok fd, record { fd = pos fd }, w')
    unchanged :
        (e : Error) (w' : W) → ((i : ℕ) → is_open w' i ≡ is_open w i) → Balanced p w (err e, p, w')

  gained_by :
      {w : W} (p : Port) (fd : ℕ) (w' : W)
      → OneMore (is_open w) (is_open w') fd
      → Balanced p w (ok fd, record { fd = pos fd }, w')
  unfolding close_port
  gained_by p fd w' m = gained fd w' m (close-OneMore m)

  give_up-Balanced :
      {w : W} (p : Port) (fd : ℕ) (w' : W)
      → OneMore (is_open w) (is_open w') fd
      → Balanced p w (give_up sys p fd w')
  unfolding give_up
  give_up-Balanced p fd w' m =
      let end = sys.close_file w' (pos fd) in
      unchanged (errno_to_smp_error (sys.errno end)) end (close-OneMore m)

  configured-Balanced :
      {w : W} (p : Port) (fd : ℕ) (r : Option (Unit {0}) × W)
      → OneMore (is_open w) (is_open r.1) fd
      → Balanced p w (configured sys p fd r)
  configured-Balanced p fd (none, w') m = give_up-Balanced p fd w' m
  configured-Balanced p fd (some _, w') m = gained_by p fd w' m

  with_attributes-Balanced :
      {w : W} (p : Port) (fd : ℕ) (r : Option Termios × W)
      → OneMore (is_open w) (is_open r.1) fd
      → Balanced p w (with_attributes sys p fd r)
  with_attributes-Balanced p fd (none, w') m = give_up-Balanced p fd w' m
  with_attributes-Balanced p fd (some term, w') m =
      configured-Balanced p fd (sys.tcsetattr w' (pos fd) (raw sys term))
        (OneMore-keeps m (tracks.sets w' (pos fd) (raw sys term)))

  with_file-Balanced :
      {w : W} (p : Port) (fd : ℕ) (r : Bool × W)
      → OneMore (is_open w) (is_open r.1) fd
      → Balanced p w (with_file sys p fd r)
  with_file-Balanced p fd (false, w') m = gained_by p fd w' m
  with_file-Balanced p fd (true, w') m =
      with_attributes-Balanced p fd (sys.tcgetattr w' (pos fd))
        (OneMore-keeps m (tracks.gets w' (pos fd)))

  after_open-Balanced :
      (w : W) (path : List ℕ) (p : Port) (r : Option ℕ × W)
      → sys.open_file w path ≡ r
      → Balanced p w (after_open sys p r)
  after_open-Balanced w path p (none, w') e =
      unchanged (errno_to_smp_error (sys.errno w')) w' (tracks.opens_nothing w w' path e)
  after_open-Balanced w path p (some fd, w') e =
      let (fresh, open_now, others) = tracks.opens w w' path fd e in
      let m : OneMore (is_open w) (is_open w') fd = record {
        fresh = fresh;
        open_now = open_now;
        others = others;
      } in
      with_file-Balanced p fd (sys.isatty w' (pos fd)) (OneMore-keeps m (tracks.asks w' (pos fd)))

  -- No descriptor is lost, where the calls of the system open and close descriptors as documented:
  -- opening the device ends either with one more open descriptor, which is the one returned and held
  -- by the device, and closing the device then leaves those open that were open before; or with an
  -- error, whichever call failed, and the device and the open descriptors are as before.
  pub open_port-Balanced :
      (p : Port) (w : W) (path : List ℕ) → Balanced p w (open_port sys p w path)
  unfolding open_port
  open_port-Balanced p w path = after_open-Balanced w path p (sys.open_file w path) refl

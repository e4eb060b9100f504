-- ===== src/Device/Windows/Lifecycle.antt =====
-- Which handles are open after smp_serial_device_open and smp_serial_device_close, and which error an
-- attempt to open the device reports.
use libsmp.Base.{ℕ, ◌≡◌, ◌≢◌, refl, Bool, false, Option, none, some, List}
use libsmp.Errors.{ok, err}
use libsmp.Device.Descriptors.{OneMore, OneMore-keeps, OneMore-closed}
use libsmp.Device.Windows.System.{Dcb, CommTimeouts, System}
use libsmp.Device.Windows.Port.{
  Port, Opened, give_up, with_timeouts, with_settings, with_state, after_create, open_port,
  close_port, initial_settings, timeouts, win_error_to_smp_error,
}

-- What the documentation of the calls says of the open handles.
pub record Tracks {W : Type 0} (sys : System W) (is_open : W → ℕ → Bool) : Type 0 where
  pub creates :
      (w w' : W) (path : List ℕ) (handle : ℕ)
      → sys.create_file w path ≡ (some handle, w')
      → OneMore (is_open w) (is_open w') handle
  pub creates_nothing :
      (w w' : W) (path : List ℕ)
      → sys.create_file w path ≡ (none, w')
      → (i : ℕ) → is_open w' i ≡ is_open w i
  pub closes : (w : W) (handle : ℕ) → is_open (sys.close_handle w (some handle)) handle ≡ false
  pub closes_one :
      (w : W) (handle i : ℕ)
      → i ≢ handle
      → is_open (sys.close_handle w (some handle)) i ≡ is_open w i
  pub gets :
      (w : W) (handle : Option ℕ) (i : ℕ) → is_open (sys.get_comm_state w handle).1 i ≡ is_open w i
  pub sets :
      (w : W) (handle : Option ℕ) (dcb : Dcb) (i : ℕ)
      → is_open (sys.set_comm_state w handle dcb).1 i ≡ is_open w i
  pub sets_timeouts :
      (w : W) (handle : Option ℕ) (t : CommTimeouts) (i : ℕ)
      → is_open (sys.set_comm_timeouts w handle t).1 i ≡ is_open w i

module _ {W : Type 0} (sys : System W) where
  -- The states between the calls, as far as they succeed, from the state `w`.
  pub data Stage (w : W) (path : List ℕ) (handle : ℕ) : W → Type 0 where
    created : (w1 : W) → sys.create_file w path ≡ (some handle, w1) → Stage w path handle w1
    read :
        (w0 w1 : W) (dcb : Dcb)
        → Stage w path handle w0
        → sys.get_comm_state w0 (some handle) ≡ (some dcb, w1)
        → Stage w path handle w1
    changed :
        (w0 w1 : W) (dcb : Dcb)
        → Stage w path handle w0
        → sys.set_comm_state w0 (some handle) (initial_settings sys dcb) ≡ (some tt, w1)
        → Stage w path handle w1

  -- A call that fails, after the others succeeded, and the state that it leaves.
  pub data FailsAt (w : W) (path : List ℕ) : W → Type 0 where
    at_create : (w1 : W) → sys.create_file w path ≡ (none, w1) → FailsAt w path w1
    at_get :
        (w0 w1 : W) (handle : ℕ)
        → Stage w path handle w0
        → sys.get_comm_state w0 (some handle) ≡ (none, w1)
        → FailsAt w path w1
    at_set :
        (w0 w1 : W) (handle : ℕ) (dcb : Dcb)
        → Stage w path handle w0
        → sys.set_comm_state w0 (some handle) (initial_settings sys dcb) ≡ (none, w1)
        → FailsAt w path w1
    at_timeouts :
        (w0 w1 : W) (handle : ℕ)
        → Stage w path handle w0
        → sys.set_comm_timeouts w0 (some handle) timeouts ≡ (none, w1)
        → FailsAt w path w1

module _ {W : Type 0} (sys : System W) (is_open : W → ℕ → Bool) (tracks : Tracks sys is_open) where
  -- How an attempt to open the device ends: with its handle open and in the device, which closing it
  -- undoes, or with the error that the system has after the call that failed, the device and the open
  -- handles as they were.
  pub data Balanced (p : Port) (w : W) (path : List ℕ) : Opened sys → Type 0 where
    gained :
        (handle : ℕ) (w' : W)
        → OneMore (is_open w) (is_open w') handle
        → ((i : ℕ)
            → is_open (close_port sys (record { handle = some handle }) w').1 i ≡ is_open w i)
        → Balanced p w path (ok tt, record { handle = some handle }, w')
    unchanged :
        (w1 w' : W)
        → FailsAt sys w path w1
        → ((i : ℕ) → is_open w' i ≡ is_open w i)
        → Balanced p w path (err (win_error_to_smp_error (sys.last_error w1)), p, w')

  close-OneMore :
      {w w1 : W} {handle : ℕ}
      → OneMore (is_open w) (is_open w1) handle
      → (i : ℕ) → is_open (sys.close_handle w1 (some handle)) i ≡ is_open w i
  close-OneMore {w} {w1} {handle} m =
      OneMore-closed m (tracks.closes w1 handle) (λ i ne. tracks.closes_one w1 handle i ne)

  give_up-Balanced :
      {w : W} (p : Port) (path : List ℕ) (handle : ℕ) (w1 : W)
      → OneMore (is_open w) (is_open w1) handle
      → FailsAt sys w path w1
      → Balanced p w path (give_up sys p handle w1)
  unfolding give_up
  give_up-Balanced p path handle w1 m f =
      unchanged w1 (sys.close_handle w1 (some handle)) f (close-OneMore m)

  with_timeouts-Balanced :
      {w : W} (p : Port) (path : List ℕ) (handle : ℕ) (w0 : W) (r : Option (Unit {0}) × W)
      → Stage sys w path handle w0
      → sys.set_comm_timeouts w0 (some handle) timeouts ≡ r
      → OneMore (is_open w) (is_open r.1) handle
      → Balanced p w path (with_timeouts sys p handle r)
  unfolding close_port
  with_timeouts-Balanced p path handle w0 (none, w1) g e m =
      give_up-Balanced p path handle w1 m (at_timeouts w0 w1 handle g e)
  with_timeouts-Balanced p path handle w0 (some _, w1) g e m = gained handle w1 m (close-OneMore m)

  with_settings-Balanced :
      {w : W} (p : Port) (path : List ℕ) (handle : ℕ) (w0 : W) (dcb : Dcb)
      (r : Option (Unit {0}) × W)
      → Stage sys w path handle w0
      → sys.set_comm_state w0 (some handle) (initial_settings sys dcb) ≡ r
      → OneMore (is_open w) (is_open r.1) handle
      → Balanced p w path (with_settings sys p handle r)
  with_settings-Balanced p path handle w0 dcb (none, w1) g e m =
      give_up-Balanced p path handle w1 m (at_set w0 w1 handle dcb g e)
  with_settings-Balanced p path handle w0 dcb (some _, w1) g e m =
      with_timeouts-Balanced p path handle w1 (sys.set_comm_timeouts w1 (some handle) timeouts)
        (changed w0 w1 dcb g e) refl
        (OneMore-keeps m (tracks.sets_timeouts w1 (some handle) timeouts))

  with_state-Balanced :
      {w : W} (p : Port) (path : List ℕ) (handle : ℕ) (w0 : W) (r : Option Dcb × W)
      → Stage sys w path handle w0
      → sys.get_comm_state w0 (some handle) ≡ r
      → OneMore (is_open w) (is_open r.1) handle
      → Balanced p w path (with_state sys p handle r)
  with_state-Balanced p path handle w0 (none, w1) g e m =
      give_up-Balanced p path handle w1 m (at_get w0 w1 handle g e)
  with_state-Balanced p path handle w0 (some dcb, w1) g e m =
      let next = initial_settings sys dcb in
      with_settings-Balanced p path handle w1 dcb (sys.set_comm_state w1 (some handle) next)
        (read w0 w1 dcb g e) refl (OneMore-keeps m (tracks.sets w1 (some handle) next))

  after_create-Balanced :
      (w : W) (path : List ℕ) (p : Port) (r : Option ℕ × W)
      → sys.create_file w path ≡ r
      → Balanced p w path (after_create sys p r)
  after_create-Balanced w path p (none, w1) e =
      unchanged w1 w1 (at_create w1 e) (tracks.creates_nothing w w1 path e)
  after_create-Balanced w path p (some handle, w1) e =
      with_state-Balanced p path handle w1 (sys.get_comm_state w1 (some handle)) (created w1 e) refl
        (OneMore-keeps (tracks.creates w w1 path handle e) (tracks.gets w1 (some handle)))

  -- No handle is lost on Windows, where the calls of the system open and close handles as documented:
  -- opening the device ends either with one more open handle, which the device holds, and closing the
  -- device then leaves those open that were open before; or with the error that the system had right
  -- after the call that failed, whichever it was, and the device and the open handles are as before.
  pub create-Balanced :
      (p : Port) (w : W) (path : List ℕ) → Balanced p w path (open_port sys p w path)
  unfolding open_port
  create-Balanced p w path = after_create-Balanced w path p (sys.create_file w path) refl

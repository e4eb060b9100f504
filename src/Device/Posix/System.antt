-- ===== src/Device/Posix/System.antt =====
-- What src/serial-device-posix.c calls of the operating system and of the C library: the functions,
-- the flags and the error numbers that the code names.
use libsmp.Base.{ℕ, Bool, Option, List}
use libsmp.Base.Int.{ℤ}

-- the values of `errno` that the code names, and any other value
pub data Errno : Type 0 where
  einval ebadmsg e2big enomem enoent etimedout ebadf enosys ebusy eperm eagain eio : Errno
  other_errno : Errno

-- `struct termios`; a set of flags says which of its bits are set.
pub record Termios : Type 0 where
  pub c_iflag : ℕ → Bool
  pub c_oflag : ℕ → Bool
  pub c_cflag : ℕ → Bool
  pub c_lflag : ℕ → Bool
  pub c_cc : ℕ → ℕ

-- The calls, on a state `W` of the system. A call that fails gives `none`, and `errno` then says why.
pub record System (W : Type 0) : Type 0 where
  pub errno : W → Errno
  -- with `O_RDWR | O_NONBLOCK`
  pub open_file : W → List ℕ → Option ℕ × W
  pub close_file : W → ℤ → W
  pub isatty : W → ℤ → Bool × W
  pub tcgetattr : W → ℤ → Option Termios × W
  -- with `TCSANOW`
  pub tcsetattr : W → ℤ → Termios → Option (Unit {0}) × W
  pub write_file : W → ℤ → List ℕ → Option ℕ × W
  -- the bytes that a read of at most so many bytes stored
  pub read_file : W → ℤ → ℕ → Option (List ℕ) × W
  -- for `POLLIN` on one descriptor: the count, and whether `POLLERR` is reported
  pub poll : W → ℤ → ℤ → Option (ℕ × Bool) × W
  pub cfsetispeed : Termios → ℕ → Termios
  pub cfsetospeed : Termios → ℕ → Termios
  pub cfmakeraw : Termios → Termios
  -- the constant of a rate in bits per second, as `B1200` of 1200
  pub speed : ℕ → ℕ
  -- the positions of the flags
  pub parenb : ℕ
  pub parodd : ℕ
  pub ixon : ℕ
  pub ixoff : ℕ

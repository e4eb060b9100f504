-- ===== src/Errors.antt =====
-- The error codes of include/libsmp.h (`SmpError`) and src/libsmp.c. The C functions return 0 or a
-- count on success and a negative code on failure; here that is a `Result`.
pub mod Strings
mod Tests
use libsmp.Base.Int.{ℤ, pos, negsuc}

-- The enumerators of `SmpError` below `SMP_ERROR_NONE`.
pub data Error : Type 0 where
  invalid_param no_mem no_device not_found busy perm bad_fd not_supported would_block : Error
  io exist too_big timedout overflow bad_message bad_type pipe other : Error

-- What a call gives: a value, an error code, or `fault`: the C code would read or write outside the
-- objects that it was given, which has no defined result.
pub data Result {ℓ} (A : Type ℓ) : Type ℓ where
  ok : A → Result A
  err : Error → Result A
  fault : Result A

-- A fallible step and what follows its success.
infixl 5 ◌>>=◌
abbrev pub ◌>>=◌ {ℓ κ} : {A : Type ℓ} {B : Type κ} → Result A → (A → Result B) → Result B
ok a >>= f = f a
err e >>= f = err e
fault >>= f = fault

-- The value of an enumerator.
unfoldable pub code_of : Error → ℤ
code_of invalid_param = negsuc 0
code_of no_mem = negsuc 1
code_of no_device = negsuc 2
code_of not_found = negsuc 3
code_of busy = negsuc 4
code_of perm = negsuc 5
code_of bad_fd = negsuc 6
code_of not_supported = negsuc 7
code_of would_block = negsuc 8
code_of io = negsuc 9
code_of exist = negsuc 10
code_of too_big = negsuc 11
code_of timedout = negsuc 12
code_of overflow = negsuc 13
code_of bad_message = negsuc 14
code_of bad_type = negsuc 15
code_of pipe = negsuc 16
code_of other = negsuc 99

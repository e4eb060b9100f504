-- ===== src/Context/Answer.antt =====
-- What the last step of a send makes of the device's answer: src/context.c, lines 316 to 326.
use libsmp.Base.{
  ℕ, ◌≡◌, ◌≢◌, refl, sym, List, length, ◌==◌, ==_sound, ==→ne, subst, inl, inr, Bool-cases, some,
}
use libsmp.Errors.{Error, Result, ok, err, fault, io}
use libsmp.Heap.{Heap}
use libsmp.Context.Send.{written_out}

-- What a send returns, where the device answers `answer` to the `n` bytes that it is given.
pub data Returns (n : ℕ) : Result ℕ → Result (Unit {0}) → Type 0 where
  took_all : Returns n (ok n) (ok tt)
  took_other : (k : ℕ) → k ≢ n → Returns n (ok k) (err io)
  refused : (e : Error) → Returns n (err e) (err e)
  broken : Returns n fault fault

pub written_out-Returns :
    (answer : Result ℕ) (bytes : List ℕ) (h : Heap)
    → Returns (length bytes) answer (written_out answer bytes h).ret
unfolding written_out
written_out-Returns (ok k) bytes h = elim (Bool-cases (k == length bytes)) [
  | inl e ↦ rw e (
      subst (λ j. Returns (length bytes) (ok j) (ok tt)) (sym (==_sound k (length bytes) e))
        took_all)
  | inr e ↦ rw e (took_other k (==→ne k (length bytes) e))
]
written_out-Returns (err e) bytes h = refused e
written_out-Returns fault bytes h = broken

pub written_out-written :
    (answer : Result ℕ) (bytes : List ℕ) (h : Heap)
    → ((written_out answer bytes h).written ≡ some bytes) × ((written_out answer bytes h).heap ≡ h)
unfolding written_out
written_out-written (ok k) bytes h = (refl, refl)
written_out-written (err e) bytes h = (refl, refl)
written_out-written fault bytes h = (refl, refl)

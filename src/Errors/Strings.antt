-- ===== src/Errors/Strings.antt =====
-- `smp_error_to_string`: src/libsmp.c.
use Prim.Native.String.{String}
use libsmp.Base.{
  ℕ, zero, suc, ◌+◌, ◌≡◌, ◌≢◌, ◌↔◌, ◌<◌, refl, arith, Option, none, some, List, [], ◌∷◌, get_elem?,
  length, Bool-cases, inl, inr, ==_sound, ==→ne, leb→le, ap, sym, ◌∙◌, leb, if◌then◌else◌, ◌==◌,
}
use libsmp.Base.Int.{ℤ, pos, negsuc}
use libsmp.Errors.{Result, ok, fault}

-- `errstr`, of `ERR_STR_ARRAY_SIZE` entries
abbrev pub errstr : List String
errstr =
    "none" ∷ "invalid parameter" ∷ "no more memory" ∷ "no such device" ∷ "entity not found"
    ∷ "device busy" ∷ "permission denied" ∷ "bad file descriptor" ∷ "operation not supported"
    ∷ "operation would block" ∷ "io error" ∷ "entity already exist" ∷ "too big"
    ∷ "operation timed out" ∷ "overflow" ∷ "bad message" ∷ "bad field type" ∷ "broken pipe" ∷ []

-- `ERR_STR_ARRAY_SIZE`
abbrev pub err_str_array_size : ℕ
err_str_array_size = 18

-- a read of the table at an index
abbrev entry : Option String → Result String
entry none = fault
entry (some s) = ok s

-- `smp_error_to_string`
unfoldable pub error_to_string : ℤ → Result String
error_to_string (pos n) = if n == 0 then entry (get_elem? errstr 0) else ok "unknown"
error_to_string (negsuc n) =
    if leb (n + 1) err_str_array_size
    then entry (get_elem? errstr (n + 1))
    else if n == 99
    then ok "other error"
    else ok "unknown"

entry_inside :
    (table : List String) (i : ℕ)
    → i < length table
    → (s : String) × (entry (get_elem? table i) ≡ ok s)
entry_inside [] i h = absurd (omega arith)
entry_inside (s ∷ rest) zero h = (s, refl)
entry_inside (s ∷ rest) (suc i) h = entry_inside rest i (omega arith)

string_ne_fault : (s : String) → ◌≢◌ {A = Result String} (ok s) fault
string_ne_fault s e = cc e

only_past : (z : ℤ) → error_to_string z ≡ fault → z ≡ negsuc 17
unfolding error_to_string
only_past (pos n) f = elim (Bool-cases (n == 0)) [
  | inl e ↦ absurd (string_ne_fault "none" (rw e at f))
  | inr e ↦ absurd (string_ne_fault "unknown" (rw e at f))
]
only_past (negsuc n) f = elim (Bool-cases (leb (n + 1) 18)) [
  | inl e ↦ elim (Bool-cases (n == 17)) [
    | inl z ↦ ap negsuc (==_sound n 17 z)
    | inr z ↦
        let (s, inside) =
          entry_inside errstr (n + 1) (omega (arith, leb→le (n + 1) 18 e, ==→ne n 17 z)) in
        absurd (string_ne_fault s (sym inside ∙ (rw e at f)))
  ]
  | inr e ↦ elim (Bool-cases (n == 99)) [
    | inl k ↦ absurd (string_ne_fault "other error" (rw (e, k) at f))
    | inr k ↦ absurd (string_ne_fault "unknown" (rw (e, k) at f))
  ]
]

-- `smp_error_to_string` reads outside its table for the code -18, which is no error code, and for no
-- other integer.
pub error_to_string-fault : (z : ℤ) → error_to_string z ≡ fault ↔ (z ≡ negsuc 17)
unfolding error_to_string
error_to_string-fault z = (only_past z, λ e. rw e refl)

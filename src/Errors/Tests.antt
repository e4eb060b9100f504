-- ===== src/Errors/Tests.antt =====
-- Runs of smp_error_to_string, with an instance of its property.
use libsmp.Base.{◌≡◌, ◌↔◌, refl}
use libsmp.Base.Int.{pos, negsuc}
use libsmp.Errors.{ok, fault}
use libsmp.Errors.Strings.{error_to_string, error_to_string-fault}

last_entry : error_to_string (negsuc 16) ≡ ok "broken pipe"
unfolding error_to_string
last_entry = refl

no_error : error_to_string (pos 0) ≡ ok "none"
unfolding error_to_string
no_error = refl

not_negative : error_to_string (pos 1) ≡ ok "unknown"
unfolding error_to_string
not_negative = refl

other_error : error_to_string (negsuc 99) ≡ ok "other error"
unfolding error_to_string
other_error = refl

error_to_string-fault_example : error_to_string (negsuc 17) ≡ fault ↔ (negsuc 17 ≡ negsuc 17)
error_to_string-fault_example = error_to_string-fault (negsuc 17)

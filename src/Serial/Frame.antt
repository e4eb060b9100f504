-- ===== src/Serial/Frame.antt =====
-- The constants and helpers of src/serial-protocol.c (lines 34 to 82), and the frame format of
-- docs/protocols/serial-protocol.rst as a function from payloads to frames.
use libsmp.Base.{ℕ, ◌+◌, ◌%◌, ◌^◌, Bool, ◌||◌, List, [], ◌∷◌, ◌++◌, bit_xor}
use libsmp.Base.{◌==◌, if◌then◌else◌, length}

abbrev pub start_byte : ℕ
start_byte = 0x10

abbrev pub end_byte : ℕ
end_byte = 0xff

abbrev pub esc_byte : ℕ
esc_byte = 0x1b

abbrev pub default_buffer_size : ℕ
default_buffer_size = 1024

-- The size on targets other than AVR.
abbrev pub default_maximum_decoder_buffer_size : ℕ
default_maximum_decoder_buffer_size = 1_048_576

-- `size_t` has 64 bits.
abbrev pub add_size : ℕ → ℕ → ℕ
add_size a b = (a + b) % 2 ^ 64

unfoldable pub is_magic_byte : ℕ → Bool
is_magic_byte byte = byte == start_byte || byte == end_byte || byte == esc_byte

-- The loop adds one for each byte to escape.
unfoldable pub count_magic : ℕ → List ℕ → ℕ
count_magic ret [] = ret
count_magic ret (b ∷ bs) = count_magic (if is_magic_byte b then add_size ret 1 else ret) bs

unfoldable pub compute_payload_size : List ℕ → ℕ
compute_payload_size buf = count_magic (add_size (length buf) 4) buf

unfoldable pub checksum_from : ℕ → List ℕ → ℕ
checksum_from checksum [] = checksum
checksum_from checksum (b ∷ bs) = checksum_from (bit_xor checksum b) bs

unfoldable pub compute_checksum : List ℕ → ℕ
unfolding checksum_from
compute_checksum buf = checksum_from 0 buf

-- The format: each reserved byte is preceded by `esc_byte`.
unfoldable pub escape_byte : ℕ → List ℕ
escape_byte b = if is_magic_byte b then esc_byte ∷ b ∷ [] else b ∷ []

unfoldable pub escape : List ℕ → List ℕ
escape [] = []
escape (b ∷ bs) = escape_byte b ++ escape bs

-- START_BYTE, the payload and its checksum escaped, END_BYTE.
unfoldable pub frame_of : List ℕ → List ℕ
frame_of payload =
    start_byte ∷ (escape payload ++ (escape_byte (compute_checksum payload) ++ (end_byte ∷ [])))

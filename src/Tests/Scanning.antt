-- ===== src/Tests/Scanning.antt =====
-- Runs of vsscanf.
use c_lite.Base.{◌≡◌, refl, [], ◌∷◌, some, arith}
use c_lite.Text.{Bytes}
use c_lite.Stdio.Format.Print.{printed, word, snprintf}
use c_lite.Ctype.{isspace}
use c_lite.Stdlib.Number.{strtoll}
use c_lite.Compat.Scan.{
  ended, stored_number, stored_string, vsscanf, scan_loop, scan_directive, conversion, size_bits,
  width_loop, field, skip_space, word_loop,
}
use c_lite.Compat.Scan.Kinds.{IsTyped, kinds, vsscanf-IsTyped}
use c_lite.Compat.Scan.RoundTrip.{vsscanf-snprintf}
use c_lite.Tests.Output.{tenths}

-- "%d %s" on "-7 up"
abbrev fields : Bytes
fields = b'%' ∷ b'd' ∷ b' ' ∷ b'%' ∷ b's' ∷ []

abbrev line_of_fields : Bytes
line_of_fields = b'-' ∷ b'7' ∷ b' ' ∷ b'u' ∷ b'p' ∷ []

vsscanf-IsTyped_example : IsTyped (kinds 6 fields) (vsscanf 6 (some line_of_fields) (some fields))
vsscanf-IsTyped_example = vsscanf-IsTyped 6 line_of_fields fields (omega arith)

vsscanf_run :
    vsscanf 6 (some line_of_fields) (some fields)
    ≡ ended 2 (stored_number 32 4294967289 ∷ stored_string (b'u' ∷ b'p' ∷ []) ∷ [])
unfolding vsscanf scan_loop isspace scan_directive conversion size_bits width_loop field skip_space
    strtoll word_loop
vsscanf_run = refl

vsscanf-snprintf_example :
    (text : Bytes) × (snprintf tenths 2 34 (b'%' ∷ b'd' ∷ []) (word 4294967289 ∷ []) ≡ printed text)
    × (vsscanf 2 (some text) (some (b'%' ∷ b'd' ∷ [])) ≡ ended 1 (stored_number 32 4294967289 ∷ []))
vsscanf-snprintf_example = vsscanf-snprintf tenths 4294967289 33 0 0 (omega arith) (omega arith)

-- ===== src/Tests/Addresses.antt =====
-- Runs of the byte order and of the numeric addresses.
use c_lite.Inet.Hosts.{Hosts}
use c_lite.Base.{◌≡◌, refl, [], ◌∷◌, none, arith}
use c_lite.Ctype.{isdigit}
use c_lite.Inet.{inet_aton}
use c_lite.Inet.Parts.{inet_aton-zero_part}

-- "7.0.1"
inet_aton-zero_part_example : inet_aton (b'7' ∷ b'.' ∷ b'0' ∷ b'.' ∷ b'1' ∷ []) ≡ none
unfolding isdigit
inet_aton-zero_part_example = inet_aton-zero_part b'7' [] (b'1' ∷ []) (omega arith) (refl, tt)

abbrev no_host : Hosts
no_host = record { host_name = []; host_addr = 0; h_errno = 0 }

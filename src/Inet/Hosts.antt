-- ===== src/Inet/Hosts.antt =====
-- The lookups of src/net.c and of src/compat.c: what they find for a name, without a network.
use c_lite.Base.{
  ℕ, ◌/◌, ◌%◌, ◌^◌, Bool, true, false, ◌&&◌, [], ◌∷◌, Option, none, some, ◌==◌, if◌then◌else◌, take,
}
use c_lite.Base.Int.{ℤ, pos, negsuc}
use c_lite.Text.{Bytes, codes}
use c_lite.Inet.{htonl, inet_aton}
use c_lite.Stdio.Format.Double.{Doubles}
use c_lite.Stdio.Format.Print.{Printed, word, snprintf}
use c_lite.Syscall.{Os, Sys, pure, fail, minus_one}
use c_lite.Syscall.Numbers.{eafnosupport}

-- s_host_name, s_host_addr and h_errno; s_hostent points to the first two.
pub record Hosts : Type 0 where
  pub host_name : Bytes
  pub host_addr : ℕ
  pub h_errno : ℕ

abbrev pub host_not_found : ℕ
host_not_found = 1

abbrev pub inaddr_loopback : ℕ
inaddr_loopback = 0x7f000001

-- strcmp(a, b) == 0
unfoldable pub same_text : Bytes → Bytes → Bool
same_text [] [] = true
same_text [] (y ∷ ys) = false
same_text (x ∷ xs) [] = false
same_text (x ∷ xs) (y ∷ ys) = x == y && same_text xs ys

-- Whether the result is s_hostent.
unfoldable pub named_host : Hosts → Bytes → Option ℕ → Bool × Hosts
unfolding same_text htonl
named_host h name (some addr) = (true, record h { host_name = take 63 name; host_addr = addr })
named_host h name none =
    if same_text name (codes "localhost")
    then (true, record h { host_name = codes "localhost"; host_addr = htonl inaddr_loopback })
    else (false, record h { h_errno = host_not_found })

unfoldable pub gethostbyname : Hosts → Option Bytes → Bool × Hosts
unfolding inet_aton named_host
gethostbyname h none = (false, h)
gethostbyname h (some name) = named_host h name (inet_aton name)

-- `inet` is whether the type is AF_INET.
unfoldable pub gethostbyaddr : Hosts → Option ℕ → Bool → Bool × Hosts
gethostbyaddr h none inet = (false, record h { h_errno = host_not_found })
gethostbyaddr h (some addr) inet =
    if inet
    then (true, record h { host_name = codes "localhost"; host_addr = addr })
    else (false, record h { h_errno = host_not_found })

abbrev pub eai_noname : ℤ
eai_noname = negsuc 1

abbrev pub eai_memory : ℤ
eai_memory = negsuc 9

-- The result, and the address at `*res`. `granted` is whether malloc gives both blocks.
unfoldable pub found_address : Bool → ℕ → ℤ × Option ℕ
found_address granted addr = if granted then (pos 0, some addr) else (eai_memory, none)

-- The call for "127.0.0.1", which is not "localhost".
unfoldable pub numeric : Bool → Option ℕ → ℤ × Option ℕ
unfolding found_address
numeric granted none = (eai_noname, none)
numeric granted (some addr) = found_address granted addr

unfoldable pub named_address : Bool → Bytes → Option ℕ → ℤ × Option ℕ
unfolding found_address numeric same_text inet_aton
named_address granted node (some addr) = found_address granted addr
named_address granted node none =
    if same_text node (codes "localhost")
    then numeric granted (inet_aton (codes "127.0.0.1"))
    else (eai_noname, none)

unfoldable pub getaddrinfo : Bool → Option Bytes → ℤ × Option ℕ
unfolding named_address inet_aton
getaddrinfo granted none = (eai_noname, none)
getaddrinfo granted (some node) = named_address granted node (inet_aton node)

module _ (D : Doubles) where
  -- The four bytes of an address in memory, in the format "%u.%u.%u.%u".
  unfoldable pub inet_ntoa : ℕ → Printed
  unfolding snprintf
  inet_ntoa addr = snprintf D 12 18 (codes "%u.%u.%u.%u") (
      word (addr % 2 ^ 8)
      ∷ word (addr / 2 ^ 8 % 2 ^ 8)
      ∷ word (addr / 2 ^ 16 % 2 ^ 8)
      ∷ word (addr / 2 ^ 24 % 2 ^ 8)
      ∷ [])

module _ (O : Os) where
  -- The result, and the address at `dst`. `inet` is whether the family is AF_INET.
  unfoldable pub inet_pton : Bool → Bytes → Sys O (ℤ × Option ℕ)
  unfolding inet_aton
  inet_pton inet src =
      if inet then pure (parsed_address (inet_aton src)) else fail eafnosupport (minus_one, none)
    where
      parsed_address : Option ℕ → ℤ × Option ℕ
      parsed_address none = (pos 0, none)
      parsed_address (some addr) = (pos 1, some addr)

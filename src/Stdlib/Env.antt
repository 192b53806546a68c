-- ===== src/Stdlib/Env.antt =====
-- getenv, setenv, unsetenv and putenv of src/stdlib.c. A string is its bytes, a null pointer is
-- `none`; `environ` is null or the strings of the array up to its null pointer. What malloc returns
-- is an argument: whether it grants the entry, and whether it grants the array.
pub mod Lookup
pub mod Api
use c_lite.Base.{
  ℕ, zero, suc, ◌≡◌, Bool, true, false, not, ◌&&◌, ◌||◌, List, [], ◌∷◌, ◌++◌, Option, none, some,
  ◌==◌, if◌then◌else◌, length, drop, take,
}
use c_lite.Base.Int.{ℤ, pos, negsuc}
use c_lite.Text.{Bytes, first, has, index_of, is_prefix}

abbrev pub Environ : Type 0
Environ = Option (List Bytes)

abbrev pub is_empty : Bytes → Bool
is_empty [] = true
is_empty (x ∷ xs) = false

-- strncmp(entry, name, name_len) == 0 && entry[name_len] == '='
unfoldable pub matches : Bytes → Bytes → Bool
unfolding is_prefix
matches name entry = is_prefix name entry && first (drop (length name) entry) == b'='

-- The loop of getenv.
unfoldable pub lookup : Bytes → List Bytes → Option Bytes
lookup name [] = none
lookup name (e ∷ es) = if matches name e then some (drop (suc (length name)) e) else lookup name es

unfoldable pub getenv : Environ → Option Bytes → Option Bytes
unfolding lookup
getenv environ none = none
getenv none (some name) = none
getenv (some es) (some name) = if is_empty name then none else lookup name es

-- name, '=', value
abbrev pub new_entry : Bytes → Option Bytes → Bytes
new_entry name none = name ++ b'=' ∷ []
new_entry name (some value) = name ++ b'=' ∷ value

-- Whether the loop of setenv finds an entry with the name.
unfoldable pub bound : Bytes → List Bytes → Bool
bound name [] = false
bound name (e ∷ es) = matches name e || bound name es

-- The entry is put over the first one with the name.
unfoldable pub replace : Bytes → Bytes → List Bytes → List Bytes
replace name entry [] = []
replace name entry (e ∷ es) = if matches name e then entry ∷ es else e ∷ replace name entry es

-- `!name || !*name || strchr(name, '=')`
unfoldable pub bad_name : Bytes → Bool
unfolding has
bad_name name = is_empty name || has b'=' name

abbrev pub is_some : Option Bytes → Bool
is_some none = false
is_some (some v) = true

-- What follows the allocation of the entry.
pub put_entry : Bool → Environ → Bytes → Bytes → ℤ × Environ
unfolding bound replace
put_entry array_granted none name entry =
    if array_granted then (pos 0, some (entry ∷ [])) else (negsuc 0, none)
put_entry array_granted (some es) name entry =
    if bound name es
    then (pos 0, some (replace name entry es))
    else if array_granted
    then (pos 0, some (es ++ entry ∷ []))
    else (negsuc 0, some es)

unfoldable pub setenv : Bool → Bool → Environ → Option Bytes → Option Bytes → Bool → ℤ × Environ
unfolding bad_name getenv put_entry
setenv entry_granted array_granted environ none value overwrite = (negsuc 0, environ)
setenv entry_granted array_granted environ (some name) value overwrite =
    if bad_name name
    then (negsuc 0, environ)
    else if is_some (getenv environ (some name)) && not overwrite
    then (pos 0, environ)
    else if entry_granted
    then put_entry array_granted environ name (new_entry name value)
    else (negsuc 0, environ)

-- The first entry with the name is taken out, and those behind it move up.
unfoldable pub remove : Bytes → List Bytes → List Bytes
remove name [] = []
remove name (e ∷ es) = if matches name e then es else e ∷ remove name es

unfoldable pub unsetenv : Environ → Option Bytes → ℤ × Environ
unfolding bad_name remove
unsetenv none name = (negsuc 0, none)
unsetenv (some es) none = (negsuc 0, some es)
unsetenv (some es) (some name) =
    if bad_name name then (negsuc 0, some es) else (pos 0, some (remove name es))

put_at : Bool → Bool → Environ → Bytes → Option ℕ → ℤ × Environ
unfolding setenv
put_at entry_granted array_granted environ string none = (negsuc 0, environ)
put_at entry_granted array_granted environ string (some i) =
    setenv entry_granted array_granted environ (some (take i string)) (some (drop (suc i) string))
      true

-- The string is cut at its first '=', and put together again afterwards.
unfoldable pub putenv : Bool → Bool → Environ → Option Bytes → ℤ × Environ
unfolding index_of put_at
putenv entry_granted array_granted environ none = (negsuc 0, environ)
putenv entry_granted array_granted environ (some string) =
    put_at entry_granted array_granted environ string (index_of b'=' string)

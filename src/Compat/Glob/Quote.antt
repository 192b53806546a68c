-- ===== src/Compat/Glob/Quote.antt =====
-- A path whose bytes are all escaped is what glob finds for it.
use c_lite.Base.{
  ℕ, ◌<◌, ◌≡◌, refl, ap, Bool, true, false, List, [], ◌∷◌, some, leb, ne→==, length, arith,
}
use c_lite.Text.{Bytes}
use c_lite.Memory.{NoNul}
use c_lite.Syscall.{Os, World}
use c_lite.Compat.Glob.{glob_has_meta, glob_unescape_to}
use c_lite.Compat.Glob.Walk.{glob_vec_push, keep_copy, grant, ◌>>=◌, pure}
use c_lite.Compat.Glob.Call.{GlobFlags, Glob, returned, push_all, found_paths, finish_glob, glob}

-- A backslash before each byte.
unfoldable pub quote : Bytes → Bytes
quote [] = []
quote (c ∷ cs) = b'\\' ∷ c ∷ quote cs

glob_has_meta-quote : (s : Bytes) → NoNul s → glob_has_meta false (quote s) ≡ false
unfolding glob_has_meta quote
glob_has_meta-quote [] no_nul = refl
glob_has_meta-quote (c ∷ cs) (nz, no_nul) = rw (ne→== c 0 nz) (glob_has_meta-quote cs no_nul)

glob_unescape_to-quote : (s : Bytes) → NoNul s → glob_unescape_to false (quote s) ≡ s
unfolding glob_unescape_to quote
glob_unescape_to-quote [] no_nul = refl
glob_unescape_to-quote (c ∷ cs) (nz, no_nul) =
    rw (ne→== c 0 nz) (ap (λ r. c ∷ r) (glob_unescape_to-quote cs no_nul))

leb_small : (n m : ℕ) → n < m → leb m n ≡ false
leb_small n m h = ground arith

-- For a path without NUL of less than 1024 bytes, with no GLOB_NOESCAPE and no GLOB_APPEND, and where
-- malloc grants three requests: glob on the path with a backslash before each byte returns 0 with this path
-- alone, whatever the other flags, the fuel and the kernel are, and makes no call of the kernel.
pub glob-quote :
    (O : Os) (junk : ℕ → ℕ) (fuel : ℕ) (s : Bytes) (fl : GlobFlags) (g : Glob) (w : World O)
    (gs : List Bool)
    → NoNul s
    → length s < 1024
    → fl.noescape ≡ false
    → fl.append ≡ false
    → glob O junk fuel
        (some (quote s))
        fl
        g
        (record { world = w; grants = true ∷ true ∷ true ∷ gs })
      ≡ (
        returned 0 (record { gl_pathc = 1; gl_pathv = some (s ∷ []); gl_offs = 0 }),
        record { world = w; grants = gs },
      )
unfolding glob found_paths push_all finish_glob glob_vec_push keep_copy grant ◌>>=◌ pure
glob-quote O junk fuel s fl g w gs no_nul short escape fresh =
    rw
      (
        fresh,
        escape,
        glob_has_meta-quote s no_nul,
        glob_unescape_to-quote s no_nul,
        leb_small _ _ short,
      )
      refl

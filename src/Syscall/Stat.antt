-- ===== src/Syscall/Stat.antt =====
-- stat and lstat of src/syscall.c with the structure that they fill, as its bytes. They clear it
-- first, so that a byte that the kernel does not write is 0.
use c_lite.Base.{
  ℕ, ap, ◌≡◌, refl, ◌*◌, ◌/◌, ◌+◌, ◌%◌, Bool, true, false, [], ◌∷◌, some, ◌==◌, ==→eq, sym,
  if◌then◌else◌, get_or, Bool-cases, inl, inr,
}
use c_lite.Base.Int.{ℤ, pos, negsuc, is_zero, is_neg}
use c_lite.Text.{Bytes}
use c_lite.Syscall.{
  Os, Reply, World, Sys, ◌>>=◌, pure, fail, string, buffer, nil, syscall, call, checked,
}
use c_lite.Syscall.Files.{stat, lstat}
use c_lite.Syscall.Numbers.{sys_stat, sys_lstat, enoent}

-- st_mode, the second uint32_t.
unfoldable pub st_mode : Bytes → ℕ
st_mode st = get_or st 4 0 + 256 * get_or st 5 0 + 65536 * get_or st 6 0 + 16777216 * get_or st 7 0

-- S_ISDIR
unfoldable pub is_dir_mode : Bytes → Bool
unfolding st_mode
is_dir_mode st = st_mode st / 4096 % 16 == 4

no_path : false ≡ true → ⊥
no_path h = cc

zero_ret : (z : ℤ) → is_zero z ≡ true → pos 0 ≡ z
zero_ret (pos n) h = ap pos (sym (==→eq n 0 h))
zero_ret (negsuc n) h = absurd (no_path h)

module _ (O : Os) where
  unfoldable pub stat_filled : Bytes → Sys O Reply
  unfolding syscall
  stat_filled path = do
    reply ← syscall O sys_stat (string (some path) ∷ buffer true ∷ nil ∷ [])
    if is_neg reply.ret then fail enoent reply else pure reply

  -- The bytes that sys_lstat wrote before it failed are cleared by stat.
  unfoldable pub lstat_filled : Bytes → Sys O Reply
  unfolding syscall stat_filled
  lstat_filled path = do
    reply ← syscall O sys_lstat (string (some path) ∷ buffer true ∷ nil ∷ [])
    if is_zero reply.ret then pure reply else stat_filled path

  -- They are the functions of Syscall/Files.
  pub stat-stat_filled :
      (path : Bytes) (w : World O)
      → stat O (some path) true w ≡ (do reply ← stat_filled path; pure reply.ret) w
  unfolding stat checked call stat_filled
  stat-stat_filled path w =
      let reply = (syscall O sys_stat (string (some path) ∷ buffer true ∷ nil ∷ []) w).0 in
      elim (Bool-cases (is_neg reply.ret)) [ inl e ↦ rw e refl | inr e ↦ rw e refl ]

  pub lstat-lstat_filled :
      (path : Bytes) (w : World O)
      → lstat O (some path) true w ≡ (do reply ← lstat_filled path; pure reply.ret) w
  unfolding lstat call lstat_filled
  lstat-lstat_filled path w =
      let (reply, w') = syscall O sys_lstat (string (some path) ∷ buffer true ∷ nil ∷ []) w in
      elim (Bool-cases (is_zero reply.ret)) [
        | inl e ↦ rw e (ap (λ ret. (ret, w')) (zero_ret reply.ret e))
        | inr e ↦ rw e (stat-stat_filled path w')
      ]

-- ===== src/Stdio/Stream/Lines.antt =====
-- What is read from a stream: fgetc, ungetc and fgets of src/stdio.c over a file whose bytes are
-- known.
use c_lite.Base.{
  ℕ, zero, suc, ◌≡◌, refl, ap, Bool-cases, inl, inr, ne→==, ◌-◌, false, [], ◌∷◌, Option, none, some,
  arith, ◌==◌, if◌then◌else◌,
}
use c_lite.Base.Int.{ℤ, pos}
use c_lite.Text.{Bytes, rest_of}
use c_lite.Syscall.{Os, World, Reply, read}
use c_lite.Stdio.Stream.{
  File, is_one, taken, pushed_or_read, fgetc, read_byte, fgets_loop, finished, fgets, ungetc,
}

-- A descriptor that is read: what read gives while `Holds bytes world`.
pub record Source (O : Os) : Type 1 where
  pub fd : ℤ
  pub Holds : Bytes → World O → Type 0
  pub gives :
      (c : ℕ) (cs : Bytes) (w : World O)
      → Holds (c ∷ cs) w
      → ((read O fd 1 w).0 ≡ record { ret = pos 1; filled = c ∷ [] }) × Holds cs (read O fd 1 w).1
  pub ends :
      (w : World O)
      → Holds [] w
      → (is_one (read O fd 1 w).0.ret ≡ false) × Holds [] (read O fd 1 w).1

-- The first line, with its newline, cut to n bytes.
unfoldable pub line : ℕ → Bytes → Bytes
line zero cs = []
line (suc n) [] = []
line (suc n) (c ∷ cs) = if c == 10 then c ∷ [] else c ∷ line n cs

unfoldable pub after_line : ℕ → Bytes → Bytes
after_line zero cs = cs
after_line (suc n) [] = []
after_line (suc n) (c ∷ cs) = if c == 10 then cs else after_line n cs

abbrev pub head : Bytes → Option ℕ
head [] = none
head (c ∷ cs) = some c

abbrev pub shown : Bytes → Option Bytes
shown [] = none
shown (c ∷ cs) = some (c ∷ cs)

finished-shown : (n : ℕ) (cs : Bytes) → finished (suc (suc n)) cs ≡ shown cs
unfolding finished
finished-shown n [] = rw (ne→== (suc (suc n)) 1 (omega arith)) refl
finished-shown n (c ∷ cs) = refl

module _ {O : Os} (S : Source O) where
  -- The bytes that are to come from a stream: the one pushed back, then those of the file.
  pub data Ahead (w : World O) : Option ℕ → Bytes → Type 0 where
    none_back : {cs : Bytes} → S.Holds cs w → Ahead w none cs
    one_back : {c : ℕ} {cs : Bytes} → S.Holds cs w → Ahead w (some c) (c ∷ cs)

  unfoldable pub IsAt : Bytes → File → World O → Type 0
  IsAt cs f w = (f.fd ≡ S.fd) × Ahead w f.unget cs

  -- A reply of one byte, and one that is not.
  taken_byte :
      (c : ℕ) (cs : Bytes) (f : File) (r : Reply) (w : World O)
      → f.fd ≡ S.fd
      → f.unget ≡ none
      → r ≡ record { ret = pos 1; filled = c ∷ [] }
      → S.Holds cs w
      → ((taken f r).0 ≡ some c) × IsAt cs (taken f r).1 w
  unfolding taken IsAt
  taken_byte c cs f r w e u given h = rw given (refl, (e, rw u (none_back h)))

  taken_end :
      (f : File) (r : Reply) (w : World O)
      → f.fd ≡ S.fd
      → f.unget ≡ none
      → is_one r.ret ≡ false
      → S.Holds [] w
      → ((taken f r).0 ≡ none) × IsAt [] (taken f r).1 w
  unfolding taken IsAt
  taken_end f r w e u given h = rw given (refl, (e, rw u (none_back h)))

  gives_at :
      (fd : ℤ) (c : ℕ) (cs : Bytes) (w : World O)
      → fd ≡ S.fd
      → S.Holds (c ∷ cs) w
      → ((read O fd 1 w).0 ≡ record { ret = pos 1; filled = c ∷ [] }) × S.Holds cs (read O fd 1 w).1
  gives_at fd c cs w e h = rw e (S.gives c cs w h)

  ends_at :
      (fd : ℤ) (w : World O)
      → fd ≡ S.fd
      → S.Holds [] w
      → (is_one (read O fd 1 w).0.ret ≡ false) × S.Holds [] (read O fd 1 w).1
  ends_at fd w e h = rw e (S.ends w h)

  read_byte-IsAt :
      (cs : Bytes) (f : File) (w : World O)
      → f.fd ≡ S.fd
      → f.unget ≡ none
      → S.Holds cs w
      → let r = read_byte O f w in (r.0.0 ≡ head cs) × IsAt (rest_of cs) r.0.1 r.1
  unfolding read_byte
  read_byte-IsAt [] f w e u h =
      let (given, h') = ends_at f.fd w e h in
      taken_end f (read O f.fd 1 w).0 (read O f.fd 1 w).1 e u given h'
  read_byte-IsAt (c ∷ cs) f w e u h =
      let (given, h') = gives_at f.fd c cs w e h in
      taken_byte c cs f (read O f.fd 1 w).0 (read O f.fd 1 w).1 e u given h'

  pushed_or_read-IsAt :
      (cs : Bytes) (b : Option ℕ) (f : File) (w : World O)
      → f.fd ≡ S.fd
      → f.unget ≡ b
      → Ahead w b cs
      → let r = pushed_or_read O b f w in (r.0.0 ≡ head cs) × IsAt (rest_of cs) r.0.1 r.1
  unfolding pushed_or_read IsAt
  pushed_or_read-IsAt cs none f w e u (none_back h) = read_byte-IsAt cs f w e u h
  pushed_or_read-IsAt [] (some _) f w e u h = elim h [ ]
  pushed_or_read-IsAt (c ∷ cs) (some _) f w e u (one_back h) = (refl, (e, none_back h))

  -- fgetc takes the first of the bytes to come, or returns EOF where there is none.
  pub fgetc-IsAt :
      (cs : Bytes) (f : File) (w : World O)
      → IsAt cs f w
      → let r = fgetc O f w in (r.0.0 ≡ head cs) × IsAt (rest_of cs) r.0.1 r.1
  unfolding IsAt fgetc
  fgetc-IsAt cs f w (e, h) = pushed_or_read-IsAt cs f.unget f w e refl h

  fgets_loop-line :
      (n : ℕ) (cs : Bytes) (f : File) (w : World O)
      → IsAt cs f w
      → let r = fgets_loop O n f w in (r.0.0 ≡ line n cs) × IsAt (after_line n cs) r.0.1 r.1
  unfolding fgets_loop line after_line
  fgets_loop-line zero cs f w at = (refl, at)
  fgets_loop-line (suc n) [] f w at =
      let (none_left, at') = fgetc-IsAt [] f w at in rw (fgets_loop, none_left) (refl, at')
  fgets_loop-line (suc n) (c ∷ cs) f w at =
      let (byte, at') = fgetc-IsAt (c ∷ cs) f w at in
      let (rest, at'') = fgets_loop-line n cs (fgetc O f w).0.1 (fgetc O f w).1 at' in
      rw (fgets_loop, byte)
        (elim (Bool-cases (c == 10)) [
          | inl newline ↦ rw newline (refl, at')
          | inr other ↦ rw other (ap (λ r. c ∷ r) rest, at'')
        ])

  -- A stream before the bytes cs: fgets of a buffer of n + 2 bytes returns the first line of cs,
  -- with its newline and cut to n + 1 bytes, or NULL where cs is empty, and leaves the stream before
  -- the bytes after it, also where the first byte was pushed back by ungetc.
  pub fgets-line :
      (n : ℕ) (cs : Bytes) (f : File) (w : World O)
      → IsAt cs f w
      → let r = fgets O (suc (suc n)) f w in
        (r.0.0 ≡ shown (line (suc n) cs)) × IsAt (after_line (suc n) cs) r.0.1 r.1
  unfolding fgets
  fgets-line n cs f w at =
      let (text, at') = fgets_loop-line (suc n) cs f w at in
      let less : suc (suc n) - 1 ≡ suc n = omega arith in
      rw (ne→== (suc (suc n)) 0 (omega arith), less, text) (finished-shown n (line (suc n) cs), at')

  pushed :
      (c : ℕ) (cs : Bytes) (w : World O) (b : Option ℕ)
      → b ≡ none
      → Ahead w b cs
      → Ahead w (some c) (c ∷ cs)
  pushed c cs w none e (none_back h) = one_back h
  pushed c cs w (some b) e h = cc

  -- ungetc puts a byte in front of the bytes that are to come, and clears the end of the file.
  pub ungetc-IsAt :
      (c : ℕ) (cs : Bytes) (f : File) (w : World O)
      → IsAt cs f w
      → f.unget ≡ none
      → let (r, f') = ungetc O (some c) f in (r ≡ some c) × IsAt (c ∷ cs) f' w × (f'.eof ≡ false)
  unfolding ungetc IsAt
  ungetc-IsAt c cs f w (e, h) free = (refl, (e, pushed c cs w f.unget free h), refl)

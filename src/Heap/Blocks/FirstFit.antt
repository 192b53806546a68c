-- ===== src/Heap/Blocks/FirstFit.antt =====
-- First fit, splitting and release keep the layout, and change the used blocks only as asked.
use mathlib.Core.Path.{subst}
use c_lite.Base.{
  ℕ, ◌+◌, ◌-◌, ◌%◌, ◌≤◌, ◌≡◌, ◌≢◌, refl, sym, ap, ◌∙◌, ◌⊎◌, inl, inr, true, false, List, [], ◌∷◌,
  Option, none, some, arith, leb, leb→le, ◌==◌, eq→==, ne→==, Bool-cases,
}
use c_lite.Memory.{Addr}
use c_lite.Heap.{header_size}
use c_lite.Heap.Blocks.Defs.{
  Block, block_end, IsLaid, used, Inserted, fits, split, keep, take_fit, release, InUse,
}

split-IsLaid :
    (size lo hi : ℕ) (b : Block) (bs : List Block)
    → size % 8 ≡ 0
    → IsLaid lo (b ∷ bs) hi
    → IsLaid lo (split size b bs) hi
unfolding split
split-IsLaid size lo hi b bs even (above, at, sz, rest) =
    elim (Bool-cases (leb (size + 32) b.size)) [
      | inl large ↦
          let room : size + 32 ≤ b.size = leb→le _ _ large in
          let e : block_end b
              ≡ b.addr + header_size + size + header_size + (b.size - size - header_size) =
            omega arith in
          rw large (
            above,
            at,
            even,
            (omega arith, omega arith, omega arith, subst (λ l. IsLaid l bs hi) e rest),
          )
      | inr small ↦ rw small (above, at, sz, rest)
    ]

keep-some :
    (b : Block) (o : Option (Addr × List Block)) {a : Addr} {cs : List Block}
    → keep b o ≡ some (a, cs)
    → (ds : List Block) × (o ≡ some (a, ds)) × (cs ≡ b ∷ ds)
keep-some b none h = cc
keep-some b (some (a', ds)) h = (ds, cc, cc)

-- A successful first fit ends at its first block or behind it.
pub take_fit-some :
    (size : ℕ) (b : Block) (bs : List Block) (a : Addr) (cs : List Block)
    → take_fit size (b ∷ bs) ≡ some (a, cs)
    → ((fits size b ≡ true) × (a ≡ b.addr) × (cs ≡ split size b bs))
      ⊎ ((ds : List Block) × (fits size b ≡ false)
          × (take_fit size bs ≡ some (a, ds))
          × (cs ≡ b ∷ ds))
unfolding take_fit
take_fit-some size b bs a cs h = elim (Bool-cases (fits size b)) [
  | inl hit ↦ inl (hit, cc (rw hit at h), cc (rw hit at h))
  | inr miss ↦
      let (ds, e, f) = keep-some b (take_fit size bs) (rw miss at h) in inr (ds, miss, e, f)
]

pub take_fit-none :
    (size : ℕ) (b : Block) (bs : List Block)
    → take_fit size (b ∷ bs) ≡ none
    → (fits size b ≡ false) × (take_fit size bs ≡ none)
unfolding take_fit
take_fit-none size b bs h = ground arith

-- First fit keeps the layout.
pub take_fit-IsLaid :
    (size lo hi : ℕ) (bs : List Block) (a : Addr) (cs : List Block)
    → size % 8 ≡ 0
    → IsLaid lo bs hi
    → take_fit size bs ≡ some (a, cs)
    → IsLaid lo cs hi
take_fit-IsLaid size lo hi [] a cs even laid h = unfold take_fit in cc
take_fit-IsLaid size lo hi (b ∷ bs) a cs even (above, at, sz, rest) h =
    elim (take_fit-some size b bs a cs h) [
      | inl (_, _, e) ↦ rw e (split-IsLaid size lo hi b bs even (above, at, sz, rest))
      | inr (ds, _, e, f) ↦
          rw f (above, at, sz, take_fit-IsLaid size (block_end b) hi bs a ds even rest e)
    ]

pub used_free : (b : Block) (bs : List Block) → b.free ≡ true → used (b ∷ bs) ≡ used bs
unfolding used
used_free b bs h = ground arith

pub used_busy : (b : Block) (bs : List Block) → b.free ≡ false → used (b ∷ bs) ≡ b ∷ used bs
unfolding used
used_busy b bs h = ground arith

pub fit_parts : (size : ℕ) (b : Block) → fits size b ≡ true → (b.free ≡ true) × (size ≤ b.size)
fit_parts size b h = ground arith

split-Inserted :
    (size : ℕ) (b : Block) (bs : List Block)
    → fits size b ≡ true
    → (n : ℕ) × (size ≤ n)
      × (n ≤ b.size)
      × Inserted
          (record { addr = b.addr; size = n; free = false })
          (used (b ∷ bs))
          (used (split size b bs))
unfolding split used
split-Inserted size b bs fit = elim (Bool-cases (leb (size + 32) b.size)) [
  | inl large ↦ rw large (
    size,
    omega arith,
    omega (arith, leb→le _ _ large),
    ([], used bs, used_free b bs (fit_parts size b fit).0, refl),
  )
  | inr small ↦ rw small (
    b.size,
    (fit_parts size b fit).1,
    omega arith,
    ([], used bs, used_free b bs (fit_parts size b fit).0, refl),
  )
]

Inserted-cons :
    (b : Block) (bs ds : List Block) (c : Block)
    → Inserted c (used bs) (used ds)
    → Inserted c (used (b ∷ bs)) (used (b ∷ ds))
Inserted-cons b bs ds c (pre, post, e, f) = elim (Bool-cases b.free) [
  | inl idle ↦ (pre, post, used_free b bs idle ∙ e, used_free b ds idle ∙ f)
  | inr busy ↦ (
    b ∷ pre,
    post,
    used_busy b bs busy ∙ ap (λ t. b ∷ t) e,
    used_busy b ds busy ∙ ap (λ t. b ∷ t) f,
  )
]

-- First fit hands out one block, of at least the size asked for, that was free or part of a free
-- block, and changes no block that is in use.
pub take_fit-Inserted :
    (size : ℕ) (bs : List Block) (a : Addr) (cs : List Block)
    → take_fit size bs ≡ some (a, cs)
    → (n : ℕ) × (size ≤ n)
      × Inserted (record { addr = a; size = n; free = false }) (used bs) (used cs)
take_fit-Inserted size [] a cs h = unfold take_fit in cc
take_fit-Inserted size (b ∷ bs) a cs h = elim (take_fit-some size b bs a cs h) [
  | inl (hit, at, e) ↦
      let (n, enough, _, new) = split-Inserted size b bs hit in rw (at, e) (n, enough, new)
  | inr (ds, _, e, f) ↦
      let (n, enough, new) = take_fit-Inserted size bs a ds e in
      rw f (n, enough, Inserted-cons b bs ds _ new)
]

-- Releasing a block keeps the layout.
pub release-IsLaid : (a lo hi : ℕ) (bs : List Block) → IsLaid lo bs hi → IsLaid lo (release a bs) hi
unfolding release
release-IsLaid a lo hi [] laid = laid
release-IsLaid a lo hi (b ∷ bs) (above, at, sz, rest) = elim (Bool-cases (b.addr == a)) [
  | inl here ↦ rw here (above, at, sz, rest)
  | inr on ↦ rw on (above, at, sz, release-IsLaid a (block_end b) hi bs rest)
]

pub release_here :
    (a : Addr) (b : Block) (bs : List Block)
    → b.addr ≡ a
    → release a (b ∷ bs) ≡ record b { free = true } ∷ bs
unfolding release
release_here a b bs h = rw (eq→== _ _ h)

pub release_other :
    (a : Addr) (b : Block) (bs : List Block) → b.addr ≢ a → release a (b ∷ bs) ≡ b ∷ release a bs
unfolding release
release_other a b bs h = rw (ne→== _ _ h)

pub IsLaid-le : (lo hi : ℕ) (bs : List Block) → IsLaid lo bs hi → lo ≤ hi
IsLaid-le lo hi [] laid = laid
IsLaid-le lo hi (b ∷ bs) (above, _, _, rest) = omega (arith, IsLaid-le (block_end b) hi bs rest)

-- Releasing a block that is in use takes that block out of the used ones, and no other.
pub release-Inserted :
    (a : Addr) (bs : List Block)
    → InUse a bs
    → (b : Block) × (b.addr ≡ a) × Inserted b (used (release a bs)) (used bs)
release-Inserted a [] h = absurd h
release-Inserted a (b ∷ bs) (inl (at, busy)) =
    (b, at, ([], used bs, unfold release used in rw (eq→== _ _ at), used_busy b bs busy))
release-Inserted a (b ∷ bs) (inr (ne, h)) =
    let (c, at, new) = release-Inserted a bs h in
    (
      c,
      at,
      subst (λ ds. Inserted c (used ds) (used (b ∷ bs))) (sym (release_other a b bs ne))
          (Inserted-cons b (release a bs) bs c new),
    )

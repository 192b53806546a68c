-- ===== src/Stdio/Format/Double.antt =====
-- The conversion f of vsnprintf in src/stdio.c, over the operations of the C type double.
use c_lite.Base.{ℕ, zero, suc, ◌+◌, Bool, false, [], ◌∷◌, ◌++◌, ltb, ◌==◌, if◌then◌else◌}
use c_lite.Text.{Bytes}
use c_lite.Stdio.Format.{num_text}

-- What the code does with doubles.
pub record Doubles : Type 1 where
  pub Double : Type 0
  pub half : Double
  pub is_below_zero : Double → Bool
  pub minus : Double → Double
  pub div_ten : Double → Double
  pub mul_ten : Double → Double
  pub plus : Double → Double → Double
  pub less : Double → Double → Double
  pub to_ulong : Double → ℕ
  pub of_ulong : ℕ → Double

module _ (D : Doubles) where
  unfoldable pub rounder_loop : ℕ → D.Double → D.Double
  rounder_loop zero r = r
  rounder_loop (suc n) r = rounder_loop n (D.div_ten r)

  unfoldable pub fraction_loop : ℕ → D.Double → Bytes
  fraction_loop zero frac = []
  fraction_loop (suc n) frac =
      let scaled = D.mul_ten frac in
      let d = if ltb 9 (D.to_ulong scaled) then 9 else D.to_ulong scaled in
      (b'0' + d) ∷ fraction_loop n (D.less scaled (D.of_ulong d))

  -- What is written to `fbuf`, which has 64 bytes.
  unfoldable pub double_text : D.Double → ℕ → Bytes
  unfolding rounder_loop fraction_loop num_text
  double_text v prec =
      let negative = D.is_below_zero v in
      let val = D.plus (if negative then D.minus v else v) (rounder_loop prec D.half) in
      let int_part = D.to_ulong val in
      let whole = num_text 10 false int_part in
      let digits = fraction_loop prec (D.less val (D.of_ulong int_part)) in
      (if negative then b'-' ∷ [] else []) ++ whole ++ (if prec == 0 then [] else b'.' ∷ digits)

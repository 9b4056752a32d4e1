-- ===== src/Double/Fixed.antt =====
-- An executable stand-in for `double`, at which theorems are applied: millionths in ℤ. Its functions
-- of <cmath> are crude and serve as values only.

use ai_solo_coder_task_b.Prelude.{
  ℕ, zero, suc, not, arith, ◌≡◌, refl, ◌+◌, ◌-◌, ◌*◌, ◌/◌, ◌^◌, if◌then◌else◌, leb,
}
use ai_solo_coder_task_b.Prelude.Int.{ℤ, pos, negsuc, pos_part, ◌+ℤ◌, ◌-ℤ◌, ◌*ℤ◌, ltb_ℤ, quotient}
use ai_solo_coder_task_b.Double.{Double, IsOrdered}

abbrev pub scale : ℕ
scale = 1_000_000

-- The largest r with r * r ≤ n, for n < 4 ^ bits, found from the high bit down.
abbrev pub root : ℕ → ℕ → ℕ → ℕ
root zero n r = r
root (suc bits) n r =
    root bits n (if leb ((r + 2 ^ bits) * (r + 2 ^ bits)) n then r + 2 ^ bits else r)

abbrev pub fixed_div : ℤ → ℤ → ℤ
fixed_div a (pos b) = quotient (a *ℤ pos scale) b
fixed_div a (negsuc b) = pos 0 -ℤ quotient (a *ℤ pos scale) (b + 1)

instance abbrev pub fixed : Double ℤ
fixed = record {
  lit = λ n k. pos (n * scale / 10 ^ k);
  neg = λ a. pos 0 -ℤ a;
  add = ◌+ℤ◌;
  sub = ◌-ℤ◌;
  mul = λ a b. quotient (a *ℤ b) scale;
  div = fixed_div;
  lt = ltb_ℤ;
  le = λ a b. not (ltb_ℤ b a);
  of_int = λ z. z *ℤ pos scale;
  trunc = λ a. quotient a scale;
  sqrt = λ a. pos (root 40 (pos_part a * scale) 0);
  exp = λ a. pos scale;
  log = λ a. pos 0;
  tanh = λ a. a;
  erfc = λ a. pos scale -ℤ a;
  ceil = λ a. pos ((pos_part a + scale - 1) / scale * scale);
  cos = λ a. pos scale;
  sin = λ a. pos 0;
  atan2 = λ a b. pos 0;
  pow = λ a b. a *ℤ a;
  abs = λ a. if ltb_ℤ a (pos 0) then pos 0 -ℤ a else a;
  to_string = λ a. "n";
}

distance : fixed.sqrt (fixed.lit 25 0) ≡ fixed.lit 5 0
distance = refl

pub fixed-IsOrdered : IsOrdered ℤ
fixed-IsOrdered = record {
  lit_number = λ n k. ground arith;
  neg_number = λ x h. ground arith;
  not_lt = λ x y h k. ground arith;
  not_le = λ x y h k. ground arith;
  lt_le = λ x y h. ground arith;
  le_trans = λ x y z h k. ground arith;
}

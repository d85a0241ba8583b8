-- ===== src/Stock/Integers.antt =====
-- Whole numbers in the place of floating-point ones, for tests.
use miti99bot.Base.{
  ◌*◌, false, if◌then◌else◌, ℤ, pos, int_eq, parse_integer, int_lt, int_add, int_sub,
}
use miti99bot.Stock.{Floats}

abbrev times : ℤ → ℤ → ℤ
times (pos a) (pos b) = pos (a * b)
times a b = pos 0

abbrev int_max : ℤ → ℤ → ℤ
int_max a b = if int_lt a b then b else a

abbrev pub whole : Floats ℤ
whole = record {
  add = int_add;
  sub = int_sub;
  mul = times;
  div = λ a b. pos 1;
  max = int_max;
  of_int = λ n. n;
  less = int_lt;
  is_nan = λ x. false;
  is_inf = λ x. false;
  is_exact_sum = λ x n y. int_eq (int_add x n) y;
  parse_float = parse_integer;
}

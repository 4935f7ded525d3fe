-- ===== src/Floats/Thousandths.antt =====
-- Non-negative fixed-point numbers in thousandths: an instance of the operations of `float` on which
-- definitions can be run.
use hispark_soc_china.Prelude.{ℕ, ◌+◌, ◌-◌, ◌*◌, ◌/◌, true, arith, ltb, leb}
use hispark_soc_china.Floats.{FloatOps, OrderLaws, TruncatedLaws}

abbrev pub thousandths : FloatOps
thousandths = record {
  F = ℕ;
  lt = ltb;
  le = leb;
  add = λ a b. a + b;
  sub = λ a b. a - b;
  mul = λ a b. a * b / 1000;
  div = λ a b. a * 1000 / b;
  neg = λ a. 0;
  lit = λ n d. n * 1000 / d;
  finite = λ a. true;
  truncated = λ a. a / 1000;
}

pub thousandths-OrderLaws : OrderLaws thousandths
thousandths-OrderLaws = record {
  lt_trans = λ a b c h k. ground arith;
  lt-le_trans = λ a b c h k. ground arith;
}

pub thousandths-TruncatedLaws : TruncatedLaws thousandths
thousandths-TruncatedLaws = record {
  truncated_ge = λ n x h. ground arith;
  truncated_le = λ n x h. ground arith;
}

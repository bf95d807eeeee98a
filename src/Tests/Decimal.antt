-- ===== src/Tests/Decimal.antt =====
-- A concrete instance of the floats: decimals with six places, never negative. It stands for the
-- interpreter's floats in the tests only.
use Prim.Native.Nat.{◌^◌}
use dm_simulator.Base.{
  List, [], ◌∷◌, Result, err, overflow_error, ℕ, zero, suc, ◌+◌, ◌-◌, ◌*◌, ◌/◌, ◌%◌, ◌≤◌, ◌<◌,
  ltb→lt, String, ◌<>◌, true, refl, Option, none, some, ok, ltb, leb, ◌==◌, arith, if◌then◌else◌,
}
use dm_simulator.Base.Int.{show_ℕ, int, ℤ, pos, negsuc}
use dm_simulator.Base.Float.{Floats, Arithmetic, IsStrictOrder, CeilWithin}

pub record Decimal : Type 0 where
  pub millionths : ℕ

abbrev digits : ℕ → ℕ → String
digits zero n = ""
digits (suc f) n =
    let rest = digits f (n * 10 % 1000000) in
    if n == 0 then "" else show_ℕ (n * 10 / 1000000) <> rest

abbrev show_decimal : ℕ → String
show_decimal n =
    if n % 1000000 == 0
    then show_ℕ (n / 1000000)
    else show_ℕ (n / 1000000) <> ("." <> digits 6 (n % 1000000))

abbrev of_int : Option ℤ → Option Decimal
of_int (some (pos n)) = some (record { millionths = n * 1000000 })
of_int _ = none

abbrev whole_decimal : ℤ → Result Decimal
whole_decimal (pos n) = ok (record { millionths = n * 1000000 })
whole_decimal (negsuc n) = err overflow_error

abbrev sum_of : List Decimal → Decimal
sum_of [] = record { millionths = 0 }
sum_of (x ∷ xs) = record { millionths = x.millionths + (sum_of xs).millionths }

instance abbrev pub decimal_floats : Floats Decimal
decimal_floats = record {
  lit = λ m d. record { millionths = m * 10 ^ (6 - d) };
  of_text = λ text. of_int (int text);
  is_finite = λ x. true;
  lt = λ x y. ltb x.millionths y.millionths;
  le = λ x y. leb x.millionths y.millionths;
  eq = λ x y. x.millionths == y.millionths;
  scale = λ n x. ok (record { millionths = n * x.millionths });
  ceil = λ x. ok ((x.millionths + 999999) / 1000000);
  round = λ x. ok ((x.millionths + 500000) / 1000000);
  show_g = λ x. show_decimal x.millionths;
}

-- The difference stops at 0, and there is no infinity: it is a large decimal.
instance abbrev pub decimal_arithmetic : Arithmetic Decimal
decimal_arithmetic = record {
  add = λ x y. record { millionths = x.millionths + y.millionths };
  minus = λ x y. record { millionths = x.millionths - y.millionths };
  times = λ x y. record { millionths = x.millionths * y.millionths / 1000000 };
  negate = λ x. record { millionths = 0 };
  over = λ x y. record { millionths = x.millionths * 1000000 / y.millionths };
  sqrt = λ x. x;
  square = λ x. ok (record { millionths = x.millionths * x.millionths / 1000000 });
  infinity = record { millionths = 10 ^ 30 };
  of_ℤ = λ n. whole_decimal n;
  of_ℕ = λ n. record { millionths = n * 1000000 };
  sum = λ xs. sum_of xs;
  show = λ x. show_decimal x.millionths;
  show_6f = λ x. show_decimal x.millionths;
}

pub decimal-IsStrictOrder : IsStrictOrder decimal_floats
decimal-IsStrictOrder = record {
  lt_trans = λ x y z h k. ground (arith, h, k);
  lt_irrefl = λ x. ground arith;
  eq_sym = λ x y h. ground (arith, h);
  eq_trans = λ x y z h k. ground (arith, h, k);
  lt_of_eq_lt = λ x y z h k. ground (arith, h, k);
  lt_of_lt_eq = λ x y z h k. ground (arith, h, k);
}

ceil_le : (n x : ℕ) → x < 1000000 → (n * x + 999999) / 1000000 ≤ n
ceil_le n x h = let k : n * x ≤ n * 999999 = grind arith in omega arith

pub decimal-CeilWithin : CeilWithin decimal_floats
decimal-CeilWithin n x small above below =
    ((n * x.millionths + 999999) / 1000000, refl, ceil_le n x.millionths (ltb→lt _ _ below))

-- ===== src/Decimal/Fixed.antt =====
-- Numbers with six decimals that are not negative, on which the programs over decimals run in tests.
use crypto_radar.Base.{
  ℕ, zero, suc, ◌+◌, ◌-◌, ◌*◌, ◌/◌, ◌%◌, ◌^◌, ◌≤◌, ◌≡◌, arith, true, false, leb, leb→le, nat_beq,
  if◌then◌else◌,
}
use crypto_radar.Decimal.{Decimal, Parsed, IsOrder, IsMonotone}

abbrev divided : ℕ → ℕ → ℕ
divided a zero = 0
divided a (suc b) = a * 1_000_000 / suc b

-- Half to even, to a multiple of ten thousand.
abbrev rounded : ℕ → ℕ
rounded d =
    let q = d / 10_000 in
    let r = d % 10_000 in
    (if leb 5_001 r then q + 1 else if nat_beq r 5_000 then q + q % 2 else q) * 10_000

abbrev pub fixed : Decimal ℕ
fixed = record {
  leb = leb;
  plus = λ c a b. a + b;
  minus = λ c a b. a - b;
  times = λ c a b. a * b / 1_000_000;
  over = λ c a b. divided a b;
  opposite = λ c a. 0;
  cents = rounded;
  cents_up = λ d. (d + 9_999) / 10_000 * 10_000;
  to_decimals = λ n d. d / 10 ^ (6 - n) * 10 ^ (6 - n);
  floor = λ d. d / 1_000_000 * 1_000_000;
  whole = λ n. n * 1_000_000;
  hundredths = λ n. n * 10_000;
  lot_step = λ n. 10 ^ (6 - n);
  parse = λ t. Parsed.invalid;
}

fixed_total : (a b : ℕ) → leb a b ≡ false → leb b a ≡ true
fixed_total a b h = ground arith

fixed_trans : (a b c : ℕ) → leb a b ≡ true → leb b c ≡ true → leb a c ≡ true
fixed_trans a b c h k = ground arith

pub fixed-IsOrder : IsOrder fixed
fixed-IsOrder = record { total = fixed_total; trans = fixed_trans }

times_mono : (a b c : ℕ) → b ≤ c → a * b ≤ a * c
times_mono zero b c le = omega arith
times_mono (suc a) b c le = omega (arith, times_mono a b c le)

quotient_mono : (x y : ℕ) → x ≤ y → leb (x / 1_000_000) (y / 1_000_000) ≡ true
quotient_mono x y le = ground arith

hundredth_mono :
    (x y : ℕ)
    → leb x y ≡ true
    → leb (x * 1_000_000 / 100_000_000) (y * 1_000_000 / 100_000_000) ≡ true
hundredth_mono x y le = ground arith

minus_mono : (a b c : ℕ) → leb a b ≡ true → leb (a - c) (b - c) ≡ true
minus_mono a b c le = ground arith

minus_anti : (a b c : ℕ) → leb b c ≡ true → leb (a - c) (a - b) ≡ true
minus_anti a b c le = ground arith

pub fixed-IsMonotone : IsMonotone fixed
fixed-IsMonotone = record {
  times_right = λ a b c pos le. quotient_mono (a * b) (a * c) (times_mono a b c (leb→le b c le));
  over_left = λ a b le. hundredth_mono a b le;
  minus_left = minus_mono;
  minus_right = minus_anti;
}

power_above : (n : ℕ) → 1 ≤ 10 ^ n
power_above zero = omega arith
power_above (suc n) = omega (arith, power_above n)

pub fixed_lot_above : (n : ℕ) → leb (10 ^ (6 - n)) 0 ≡ false
fixed_lot_above n = ground (arith, power_above (6 - n))

-- ===== src/World/Numbers.antt =====
-- A numeric property of an object that was read from JSON: missing, null, NaN or a number.
use efipix.Prelude.{ℕ, ◌+◌, ◌*◌}

pub data Number : Type 0 where
  absent null nan : Number
  num : ℕ → Number

-- `a + b`
abbrev pub plus : Number → Number → Number
plus (num a) (num b) = num (a + b)
plus (num a) null = num a
plus null (num b) = num b
plus null null = num 0
plus absent b = nan
plus nan b = nan
plus (num a) absent = nan
plus (num a) nan = nan
plus null absent = nan
plus null nan = nan

-- `a++`
abbrev pub inc : Number → Number
inc a = plus a (num 1)

-- `a * n`
abbrev pub times_num : Number → ℕ → Number
times_num (num a) n = num (a * n)
times_num null n = num 0
times_num absent n = nan
times_num nan n = nan

-- `JSON.stringify` writes NaN as null.
abbrev pub saved : Number → Number
saved nan = null
saved absent = absent
saved null = null
saved (num a) = num a

-- ===== src/Text/Decimal.antt =====
-- Decimal numerals: a number in a template string, `parseInt(s, 10)` on digits, and `padStart`.
use efipix.Prelude.{
  ℕ, zero, suc, ◌+◌, ◌-◌, ◌*◌, ◌/◌, ◌%◌, ◌≤◌, ◌<◌, ◌≡◌, ◌≢◌, refl, [], ◌∷◌, ◌++◌, arith, ltb,
  if◌then◌else◌, length, All, All-append,
}
use mathlib.Core.List.{foldl, foldl-append, concat-ne-nil}
use efipix.Text.{Text}

-- The digits of `n`, with fuel: each round drops one digit, so `n + 1` rounds are enough.
show_fuel : ℕ → ℕ → Text
show_fuel zero n = []
show_fuel (suc f) n =
    let rest = show_fuel f (n / 10) in
    if ltb n 10 then (b'0' + n) ∷ [] else rest ++ (b'0' + n % 10) ∷ []

-- `${n}` and `String(n)`
unfoldable pub show : ℕ → Text
unfolding show_fuel
show n = show_fuel (suc n) n

-- `parseInt(s, 10)` on a text of digits
unfoldable pub parse_int : Text → ℕ
parse_int s = foldl (λ n c. n * 10 + (c - b'0')) 0 s

abbrev fill : ℕ → Text → Text
fill zero s = s
fill (suc n) s = b'0' ∷ fill n s

-- `s.padStart(w, "0")`
unfoldable pub pad_start : Text → ℕ → Text
pad_start s w = fill (w - length s) s

abbrev pub IsDigit : ℕ → Type 0
IsDigit c = (b'0' ≤ c) × (c ≤ b'9')

show_fuel-IsDigit : (f n : ℕ) → All IsDigit (show_fuel f n)
unfolding show_fuel
show_fuel-IsDigit zero n = tt
show_fuel-IsDigit (suc f) n = ground (
  arith,
  show_fuel-IsDigit f (n / 10),
  All-append IsDigit (show_fuel f (n / 10)) ((b'0' + n % 10) ∷ []),
)

parse_int-show_fuel : (f n : ℕ) → n < f → parse_int (show_fuel f n) ≡ n
unfolding show_fuel parse_int
parse_int-show_fuel zero n h = absurd (omega arith)
parse_int-show_fuel (suc f) n h = ground (
  arith,
  parse_int-show_fuel f (n / 10),
  foldl-append (λ (n c : ℕ). n * 10 + (c - b'0')) 0 (show_fuel f (n / 10)) ((b'0' + n % 10) ∷ []),
)

pub show-IsDigit : (n : ℕ) → All IsDigit (show n)
unfolding show
show-IsDigit n = show_fuel-IsDigit (suc n) n

pub show-ne-nil : (n : ℕ) → show n ≢ []
unfolding show
show-ne-nil n = ground (arith, concat-ne-nil (b'0' + n % 10) (show_fuel n (n / 10)))

-- Every number is read back from its decimal print.
pub parse_int-show : (n : ℕ) → parse_int (show n) ≡ n
unfolding show
parse_int-show n = parse_int-show_fuel (suc n) n (omega arith)

parse_int-fill : (n : ℕ) (s : Text) → parse_int (fill n s) ≡ parse_int s
unfolding parse_int
parse_int-fill zero s = refl
parse_int-fill (suc n) s = parse_int-fill n s

-- Zeros in front change no number.
pub parse_int-pad_start : (s : Text) (w : ℕ) → parse_int (pad_start s w) ≡ parse_int s
unfolding pad_start
parse_int-pad_start s w = parse_int-fill (w - length s) s

-- ===== src/Tokens.antt =====
-- `estimateTokens` of .wolf/hooks/shared.js, and the choice of its ratio by file extension. The
-- ratios 3.5, 4.0 and 3.75 are fractions; the rounding up of the float quotient is exact for
-- texts that fit into memory.
use efipix.Prelude.{ℕ, ◌+◌, ◌-◌, ◌*◌, ◌/◌, ◌≤◌, ◌<◌, Bool, List, arith, length, any}
use efipix.Text.{Text, equal}

pub data Kind : Type 0 where
  code prose mixed : Kind

-- numerator and denominator of the ratio
abbrev pub ratio_num : Kind → ℕ
ratio_num code = 7
ratio_num prose = 4
ratio_num mixed = 15

abbrev pub ratio_den : Kind → ℕ
ratio_den code = 2
ratio_den prose = 1
ratio_den mixed = 4

unfoldable pub estimate_tokens : Text → Kind → ℕ
estimate_tokens text k = (length text * ratio_den k + (ratio_num k - 1)) / ratio_num k

unfoldable pub one_of : List Text → Text → Bool
unfolding equal
one_of names s = any (λ n. equal n s) names

-- The estimate is the least number of tokens whose ratio covers the text.
pub estimate_tokens_bounds :
    (text : Text) (k : Kind)
    → (length text * ratio_den k ≤ estimate_tokens text k * ratio_num k)
      × (estimate_tokens text k * ratio_num k < length text * ratio_den k + ratio_num k)
unfolding estimate_tokens
estimate_tokens_bounds text code = omega arith
estimate_tokens_bounds text prose = omega arith
estimate_tokens_bounds text mixed = omega arith

-- The same text has at most as many tokens as prose as it has as mixed text, and at most as many as
-- mixed text as it has as code.
pub estimate_tokens_order :
    (text : Text)
    → (estimate_tokens text prose ≤ estimate_tokens text mixed)
      × (estimate_tokens text mixed ≤ estimate_tokens text code)
unfolding estimate_tokens
estimate_tokens_order text = omega arith

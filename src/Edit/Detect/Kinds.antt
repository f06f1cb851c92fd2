-- ===== src/Edit/Detect/Kinds.antt =====
-- What `detectFixPattern` of .wolf/hooks/post-write.js returns, the return statements of its branches,
-- and what the branches share. The fields `rootCause` and `fix` are texts; `context` may be missing.
use efipix.Prelude.{ℕ, Option, none, some, [], ◌∷◌, length}
use efipix.Text.{Text, split}

pub data Category : Type 0 where
  error_handling null_safety guard_clause wrong_value wrong_reference logic_fix : Category
  operator_fix missing_import return_value async_fix type_fix style_fix refactor : Category

pub record Detection : Type 0 where
  pub category : Category
  pub summary : Text
  pub root_cause : Text
  pub fix : Text
  pub context : Option Text

abbrev pub plain : Category → Text → Text → Text → Option Detection
plain c s r f = some (record { category = c; summary = s; root_cause = r; fix = f; context = none })

abbrev pub telling : Category → Text → Text → Text → Text → Option Detection
telling c s r f x =
    some (record { category = c; summary = s; root_cause = r; fix = f; context = some x })

abbrev pub or_else : Option Detection → Option Detection → Option Detection
or_else (some d) o = some d
or_else none o = o

-- `x || y` for a text that may be undefined or empty
abbrev pub or_text : Option Text → Text → Text
or_text none d = d
or_text (some []) d = d
or_text (some (c ∷ s)) d = c ∷ s

abbrev pub lines : Text → ℕ
lines s = length (split s b'\n')

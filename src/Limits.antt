-- ===== src/Limits.antt =====
-- src/limits.rs: the limits, `None` for no limit.
use rjsonparser.Prelude.{ℕ, Option, none, some, Bool, false, ltb, leb}

pub record ParserLimits : Type 0 where
  pub max_nesting_depth : Option ℕ
  pub max_number_length : Option ℕ
  pub max_string_length : Option ℕ
  pub max_name_length : Option ℕ
  pub max_document_length : Option ℕ
  pub max_token_count : Option ℕ

abbrev pub default_limits : ParserLimits
default_limits = record {
  max_nesting_depth = some 1000;
  max_number_length = some 1000;
  max_string_length = none;
  max_name_length = some 4096;
  max_document_length = none;
  max_token_count = none;
}

abbrev pub unlimited : ParserLimits
unlimited = record {
  max_nesting_depth = none;
  max_number_length = none;
  max_string_length = none;
  max_name_length = none;
  max_document_length = none;
  max_token_count = none;
}

-- `if let Some(limit) = limit { if n > limit`
abbrev pub exceeds : Option ℕ → ℕ → Bool
exceeds none n = false
exceeds (some limit) n = ltb limit n

-- `if let Some(limit) = limit { if n >= limit`
abbrev pub reaches : Option ℕ → ℕ → Bool
reaches none n = false
reaches (some limit) n = leb limit n

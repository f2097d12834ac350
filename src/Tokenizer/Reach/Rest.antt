-- ===== src/Tokenizer/Reach/Rest.antt =====
-- The loops in `continue_string` and `continue_number` of src/tokenizer.rs come to their ends.
use rjsonparser.Prelude.{ℕ, ◌-◌, ◌≤◌, ◌<◌, ◌≡◌, Bool}
use rjsonparser.Tokenizer.Machine.{Machine, M, Env}
use rjsonparser.Tokenizer.Reach.Digits.{Digits}

module _ {F H : Type 0} (env : Env F H) where
  -- The two go on in the same way from a position on.
  abbrev Same : M H Bool → M H Bool → ℕ → Type 0
  Same f g end = (x : Machine H) → end < x.consumed → x.consumed ≤ env.input.len → f x ≡ g x

  -- The bytes left.
  abbrev bytes_left : Machine H → ℕ
  bytes_left m = env.input.len - m.consumed

  abbrev WithinBytes : Machine H → Type 0
  WithinBytes m = m.consumed ≤ env.input.len

-- ===== src/Locator.antt =====
-- src/locator.rs: the position that the tokenizer moves as it consumes bytes. The `Cell`s that the
-- parser and its handler share are a field of the machine's state.
use rjsonparser.Prelude.{ℕ, ◌+◌}

pub record SharedLocator : Type 0 where
  pub line : ℕ
  pub column : ℕ

abbrev pub new_locator : SharedLocator
new_locator = record { line = 1; column = 1 }

abbrev pub set_line : SharedLocator → ℕ → SharedLocator
set_line l line = record l { line = line }

abbrev pub set_column : SharedLocator → ℕ → SharedLocator
set_column l column = record l { column = column }

abbrev pub add_column : SharedLocator → ℕ → SharedLocator
add_column l delta = record l { column = l.column + delta }

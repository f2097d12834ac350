-- ===== src/Tokenizer/Nesting.antt =====
-- The nesting that the tokenizer of src/tokenizer.rs keeps: three stacks that go together, within the
-- depth limit, and states that only an object allows.
pub mod Arms
pub mod Brackets
pub mod Decoding
pub mod Keys
pub mod Quotes
pub mod Preserved
pub mod Content
pub mod Receiving
use rjsonparser.Prelude.{
  ℕ, zero, suc, ◌+◌, ◌≤◌, ◌<◌, ◌≡◌, refl, sym, ap, ◌∙◌, Bool, true, false, not, ◌&&◌, ◌||◌, List,
  [], ◌∷◌, Bytes, ltb, leb, ◌==◌, if◌then◌else◌, length, Option, none, some, arith, Bool-cases, inl,
  inr,
}
use rjsonparser.Limits.{ParserLimits}
use rjsonparser.Exec.{◌>>=◌, ◌>>◌}
use rjsonparser.Tokenizer.Machine.{
  NestToken, nest_object, nest_array, Context, in_array, in_object, State, expect_value, expect_key,
  expect_colon, after_value, Tokenizer, Machine, Env, M, update, report, token_done,
}
use rjsonparser.Tokenizer.Tokens.{state_is, top_is_object, top_is_array, pop}
use rjsonparser.Tokenizer.Triple.{Triple, After, Blind}

-- Both stacks hold the same containers.
pub data Mirrors : List Context → List NestToken → Type 0 where
  bottom : Mirrors [] []
  object :
      {cs : List Context} {ns : List NestToken}
      → Mirrors cs ns
      → Mirrors (in_object ∷ cs) (nest_object ∷ ns)
  array :
      {cs : List Context} {ns : List NestToken}
      → Mirrors cs ns
      → Mirrors (in_array ∷ cs) (nest_array ∷ ns)

-- The objects that are open.
abbrev pub objects : List Context → ℕ
objects [] = 0
objects (in_object ∷ cs) = suc (objects cs)
objects (in_array ∷ cs) = objects cs

abbrev pub Within : Option ℕ → ℕ → Type 0
Within none n = Unit {0}
Within (some max) n = n ≤ max

-- A key or a colon is expected only in an object.
abbrev pub fits_state : State → List Context → Bool
fits_state expect_key cs = top_is_object cs
fits_state expect_colon cs = top_is_object cs
fits_state expect_value cs = true
fits_state after_value cs = true

pub record IsStacked (limits : ParserLimits) (t : Tokenizer) : Type 0 where
  pub mirrors : Mirrors t.context_stack t.depth_stack
  pub bounded : Within limits.max_nesting_depth (length t.depth_stack)
  -- One set of keys for each open object, if duplicates are rejected.
  pub key_sets :
      t.reject_duplicate_keys ≡ true → length t.duplicate_key_stack ≡ objects t.context_stack

pub record IsNested (limits : ParserLimits) (t : Tokenizer) : Type 0 where
  pub stacked : IsStacked limits t
  pub state_fits : fits_state t.state t.context_stack ≡ true

pub pop-Mirrors :
    {cs : List Context} {ns : List NestToken} → Mirrors cs ns → Mirrors (pop cs) (pop ns)
pop-Mirrors bottom = bottom
pop-Mirrors (object m) = m
pop-Mirrors (array m) = m

pub Within-pop :
    (limit : Option ℕ) (ns : List NestToken)
    → Within limit (length ns)
    → Within limit (length (pop ns))
Within-pop none ns h = tt
Within-pop (some max) [] h = h
Within-pop (some max) (n ∷ ns) h = omega (arith, h)

pub IsStacked-Blind : {limits : ParserLimits} → Blind (IsStacked limits)
IsStacked-Blind t seen n h = record {
  mirrors = h.mirrors;
  bounded = h.bounded;
  key_sets = h.key_sets;
}

pub comma_state :
    (cs : List Context)
    → fits_state (if top_is_object cs then expect_key else expect_value) cs ≡ true
comma_state [] = refl
comma_state (in_object ∷ cs) = refl
comma_state (in_array ∷ cs) = refl

-- There is room for one more container.
abbrev pub HasRoom : ParserLimits → Tokenizer → Type 0
HasRoom limits t = IsStacked limits t × Within limits.max_nesting_depth (suc (length t.depth_stack))

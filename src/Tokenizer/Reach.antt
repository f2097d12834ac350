-- ===== src/Tokenizer/Reach.antt =====
-- How far the methods of `Tokenizer` in src/tokenizer.rs consume the ring: a method is followed from a
-- position to the position that it leaves, on its error path too.
pub mod Loops
pub mod Scan
pub mod Decoding
pub mod Keys
pub mod Contents
pub mod Text
pub mod Arms
pub mod Digits
pub mod Rounds
pub mod Receiving
pub mod Rest
use rjsonparser.Prelude.{
  ℕ, ◌+◌, ◌≤◌, ◌<◌, ltb, Option, none, some, ◌≡◌, refl, sym, ap, ◌∙◌, Bool, true, false, arith,
}
use mathlib.Core.Path.{subst}
use Prim.Native.String.{String}
use rjsonparser.Prelude.{Bytes, [], ◌∷◌}
use rjsonparser.Error.{ParseError, Result, ok, err, new_number}
use rjsonparser.Exec.{◌>>=◌, ◌>>◌, fail_if, pure, raise, lift, gets, modify, continue}
use rjsonparser.Handler.{ContentHandler, Event}
use rjsonparser.Limits.{ParserLimits}
use rjsonparser.Tokenizer.Machine.{
  Tokenizer, Machine, M, update, report, consume, consume_to, add_column, ensure_chars, flush,
  flush_chars, check_limit, when, token_done, check_token_limit, count_token,
}

-- An action that consumes nothing.
pub record Keeps {H A : Type 0} (action : M H A) : Type 0 where
  pub same : (m : Machine H) → (action m).1.consumed ≡ m.consumed

-- Where it succeeds its value and position satisfy `Q`; where it fails it has gone back behind no position
-- and is within the bytes.
abbrev pub Lands : {H A : Type 0} → ℕ → ℕ → (A → ℕ → Type 0) → Result A × Machine H → Type 0
Lands from len Q (ok a, m) = Q a m.consumed
Lands from len Q (err e, m) = (from ≤ m.consumed) × (m.consumed ≤ len)

-- A position that an action leaves as it was goes through what follows it.
module _ {H A B : Type 0} where
  pub continue-consumed :
      (c : ℕ) (r : Result A × Machine H) (f : A → M H B)
      → r.1.consumed ≡ c
      → ((a : A) (m : Machine H) → m.consumed ≡ c → (f a m).1.consumed ≡ c)
      → (continue r f).1.consumed ≡ c
  continue-consumed c (ok a, m) f e next = next a m e
  continue-consumed c (err x, m) f e next = e

  pub continue-Lands :
      (from len : ℕ) (R : A → ℕ → Type 0) (Q : B → ℕ → Type 0) (r : Result A × Machine H)
      (f : A → M H B)
      → Lands from len R r
      → ((a : A) (m : Machine H) → R a m.consumed → Lands from len Q (f a m))
      → Lands from len Q (continue r f)
  continue-Lands from len R Q (ok a, m) f h next = next a m h
  continue-Lands from len R Q (err x, m) f h next = h

  -- Behind an action that consumes nothing.
  pub keep-Lands :
      (from len c : ℕ) (Q : B → ℕ → Type 0) (r : Result A × Machine H) (f : A → M H B)
      → from ≤ c
      → c ≤ len
      → r.1.consumed ≡ c
      → ((a : A) (m : Machine H) → m.consumed ≡ c → Lands from len Q (f a m))
      → Lands from len Q (continue r f)
  keep-Lands from len c Q (ok a, m) f low le e next = next a m e
  keep-Lands from len c Q (err x, m) f low le e next = (omega (arith, low, e), omega (arith, le, e))

module _ {H : Type 0} where
  pub update-Keeps : (f : Tokenizer → Tokenizer) → Keeps {H = H} (update f)
  update-Keeps f = record { same = λ m. refl }

  pub add_column-Keeps : (n : ℕ) → Keeps {H = H} (add_column n)
  add_column-Keeps n = record { same = λ m. refl }

  pub fail_if-Keeps : (b : Bool) (e : ParseError) → Keeps {H = H} (fail_if b e)
  fail_if-Keeps true e = record { same = λ m. refl }
  fail_if-Keeps false e = record { same = λ m. refl }

  pub ensure_chars-Keeps : Keeps {H = H} ensure_chars
  unfolding ensure_chars
  ensure_chars-Keeps = record { same = λ m. refl }

  pub when-Keeps : (b : Bool) {m : M H (Unit {0})} → Keeps m → Keeps (when b m)
  when-Keeps true k = k
  when-Keeps false k = record { same = λ m. refl }

  count_token-Keeps : (max : Option ℕ) → Keeps {H = H} (count_token max)
  count_token-Keeps none = record { same = λ m. refl }
  count_token-Keeps (some max) = record { same = λ m. ground arith }

  pub token_done-Keeps : (limits : ParserLimits) → Keeps {H = H} (token_done limits)
  unfolding token_done check_token_limit
  token_done-Keeps limits = record {
    same = λ m.
        (count_token-Keeps limits.max_token_count).same
          (record m { tok = record m.tok { seen_any_token = true } });
  }

module _ {H A : Type 0} where
  pub gets-Keeps : (f : Machine H → A) → Keeps (gets f)
  gets-Keeps f = record { same = λ m. refl }

  pub pure-Keeps : (a : A) → Keeps {H = H} (pure a)
  pure-Keeps a = record { same = λ m. refl }

  pub raise-Keeps : (e : ParseError) → Keeps {H = H} {A = A} (raise e)
  raise-Keeps e = record { same = λ m. refl }

  pub lift-Keeps : (r : Result A) → Keeps {H = H} (lift r)
  lift-Keeps r = record { same = λ m. refl }

pub check_limit-Keeps :
    {H : Type 0} (limit : Option ℕ) (n : ℕ) (text : String)
    → Keeps {H = H} (check_limit limit n text)
check_limit-Keeps none n text = record { same = λ m. refl }
check_limit-Keeps (some limit) n text = record { same = λ m. ground arith }

module _ {F H : Type 0} where
  pub report-Keeps : (on : ContentHandler F H) (e : Event F) → Keeps {H = H} (report on e)
  report-Keeps on e = record { same = λ m. refl }

  flush-Keeps : (on : ContentHandler F H) (chars : Bytes) → Keeps {H = H} (flush on chars)
  flush-Keeps on [] = record { same = λ m. refl }
  flush-Keeps on (c ∷ chars) = record { same = λ m. ground arith }

  pub flush_chars-Keeps : (on : ContentHandler F H) → Keeps {H = H} (flush_chars on)
  unfolding flush_chars
  flush_chars-Keeps on = record { same = λ m. (flush-Keeps on m.tok.chars).same m }

-- A round that goes on has taken a byte.
abbrev pub Went : ℕ → ℕ → Bool → ℕ → Type 0
Went len from true at = (from < at) × (at ≤ len)
Went len from false at = (from ≤ at) × (at ≤ len)

pub settled :
    {H : Type 0} {len from at : ℕ} (r : Result Bool × Machine H)
    → r.1.consumed ≡ at
    → from < at
    → at ≤ len
    → Lands from len (Went len from) r
settled (ok true, m) e lt le = (omega (arith, e, lt), omega (arith, e, le))
settled (ok false, m) e lt le = (omega (arith, e, lt), omega (arith, e, le))
settled (err x, m) e lt le = (omega (arith, e, lt), omega (arith, e, le))

pub from_Went :
    {H : Type 0} (len p q : ℕ)
    → p ≤ q
    → (r : Result Bool × Machine H) → Lands q len (Went len q) r
    → Lands p len (Went len p) r
from_Went len p q le (ok true, m) h = (omega (arith, le, h), h.1)
from_Went len p q le (ok false, m) h = (omega (arith, le, h), h.1)
from_Went len p q le (err x, m) h = (omega (arith, le, h), h.1)

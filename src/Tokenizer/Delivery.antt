-- ===== src/Tokenizer/Delivery.antt =====
-- What string content of src/tokenizer.rs delivers to a handler that listens: the text that it has heard and
-- the characters that wait to be reported.
pub mod Chars
pub mod Runs
pub mod Meaning
pub mod Pieces
pub mod Content
pub mod Bare
pub mod Plain
pub mod Quotes
pub mod Reporting
pub mod Naming
use rjsonparser.Prelude.{
  ℕ, ◌≡◌, refl, sym, ap, ◌∙◌, [], ◌∷◌, ◌++◌, append-nil, Bytes, Bool, true, false, Option, some,
  none,
}
use rjsonparser.Error.{Result, ok, err}
use rjsonparser.Exec.{continue}
use rjsonparser.Handler.{ContentHandler, Event, string_value_content}
use rjsonparser.Locator.{SharedLocator}
use rjsonparser.Tokenizer.Strings.{make_room}
use rjsonparser.Tokenizer.Machine.{Machine, flush, flush_chars, when}

-- The text in an event.
abbrev pub words : {F : Type 0} → Event F → Bytes
words (string_value_content chars) = chars
words _ = []

-- A handler that listens: where it accepts an event it has heard the text in it, and forgets nothing.
pub record IsListening {F H : Type 0} (on : ContentHandler F H) (heard : H → Bytes) : Type 0 where
  pub hears :
      (e : Event F) (l : SharedLocator) (h : H)
      → (on.report e l h).0 ≡ ok tt
      → heard (on.report e l h).1 ≡ heard h ++ words e

module _ {H : Type 0} (heard : H → Bytes) where
  -- All the text so far.
  abbrev pub text : Machine H → Bytes
  text m = heard m.handler ++ m.tok.chars

  -- An action that succeeds leaves the text as it was, and none of it waiting.
  abbrev pub Flushed : Bytes → Result (Unit {0}) × Machine H → Type 0
  Flushed said (ok u, m) = (heard m.handler ≡ said) × (m.tok.chars ≡ [])
  Flushed said (err e, m) = Unit {0}

  -- An action that succeeds leaves the text as it was.
  abbrev pub Quiet : Bytes → Result (Unit {0}) × Machine H → Type 0
  Quiet said (ok u, m) = text m ≡ said
  Quiet said (err e, m) = Unit {0}

  Flushed-Quiet : (said : Bytes) (r : Result (Unit {0}) × Machine H) → Flushed said r → Quiet said r
  Flushed-Quiet said (ok u, m) f =
      ap (λ (x : Bytes). heard m.handler ++ x) f.1 ∙ append-nil (heard m.handler) ∙ f.0
  Flushed-Quiet said (err e, m) f = tt

  -- Room is made without losing text, or not at all.
  abbrev pub MakesRoom : {F : Type 0} → Option (ContentHandler F H) → Type 0
  MakesRoom who = (b : Bool) (m : Machine H) → Quiet (text m) (when b (make_room who) m)

  pub nobody-MakesRoom : (F : Type 0) → MakesRoom {F = F} none
  unfolding make_room
  nobody-MakesRoom F true m = tt
  nobody-MakesRoom F false m = refl

module _ {F H : Type 0} (on : ContentHandler F H) (heard : H → Bytes)
    (listens : IsListening on heard) where
  flush-Flushed :
      (chars : Bytes) (m : Machine H)
      → m.tok.chars ≡ chars
      → Flushed heard (text heard m) (flush on chars m)
  flush-Flushed [] m e =
      (sym (append-nil (heard m.handler)) ∙ ap (λ (x : Bytes). heard m.handler ++ x) (sym e), e)
  flush-Flushed (c ∷ chars) m e =
      reported (on.report (string_value_content (c ∷ chars)) m.locator m.handler).0 _
        (listens.hears (string_value_content (c ∷ chars)) m.locator m.handler)
    where
      reported :
          (r : Result (Unit {0})) (h : H)
          → (r ≡ ok tt → heard h ≡ heard m.handler ++ (c ∷ chars))
          → Flushed heard (text heard m) (
              continue
                (r, record m { handler = h })
                (λ _ x. (ok tt, record x { tok = record x.tok { chars = [] } })))
      reported (ok u) h said = (said refl ∙ ap (λ (x : Bytes). heard m.handler ++ x) (sym e), refl)
      reported (err x) h said = tt

  pub flush_chars-Flushed : (m : Machine H) → Flushed heard (text heard m) (flush_chars on m)
  unfolding flush_chars
  flush_chars-Flushed m = flush-Flushed m.tok.chars m refl

  pub listening-MakesRoom : MakesRoom heard (some on)
  unfolding make_room
  listening-MakesRoom true m =
      Flushed-Quiet heard (text heard m) (flush_chars on m) (flush_chars-Flushed m)
  listening-MakesRoom false m = refl

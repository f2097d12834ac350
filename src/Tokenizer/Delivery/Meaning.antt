-- ===== src/Tokenizer/Delivery/Meaning.antt =====
-- The meaning of the content of a string, that the handler of src/tokenizer.rs is to hear.
use rjsonparser.Prelude.{
  ℕ, zero, suc, ◌+◌, ◌-◌, ◌≤◌, ◌<◌, ◌≡◌, sym, ap, ◌∙◌, false, some, [], ◌∷◌, ◌++◌, Bytes, length,
  take, drop, get_or, arith,
}
use mathlib.Core.Path.{subst}
use rjsonparser.Error.{ok}
use rjsonparser.Loopbuf.{Spans, IsView}
use rjsonparser.Text.{encode_utf8}
use rjsonparser.Tokenizer.Escapes.{resolve_escape}
use rjsonparser.Tokenizer.Escapes.Peek.{drop-get_or}
use rjsonparser.Tokenizer.Delivery.Runs.{piece}
use rjsonparser.Tokenizer.Strings.{ends_run}

-- The text that the bytes of a string stand for between two positions: a byte that ends no run for itself, an
-- escape for the UTF-8 form of its character.
pub data IsText (input : Spans) : ℕ → ℕ → Bytes → Type 0 where
  no_text : {i : ℕ} → IsText input i i []
  plain_byte :
      {i j : ℕ} {t : Bytes}
      → ends_run (input.at i) ≡ false
      → IsText input (i + 1) j t
      → IsText input i j (input.at i ∷ t)
  escaped :
      {i j ch n : ℕ} {t : Bytes}
      → input.at i ≡ b'\\'
      → resolve_escape input i ≡ ok (some (ch, n))
      → IsText input (i + n) j t
      → IsText input i j (encode_utf8 ch ++ t)

module _ {input : Spans} {bs : Bytes} (view : IsView input bs) where
  -- A run of plain bytes in front of some text.
  run-IsText :
      (n p j : ℕ) (t : Bytes)
      → p + n ≤ length bs
      → ((i : ℕ) → p ≤ i → i < p + n → ends_run (input.at i) ≡ false)
      → IsText input (p + n) j t
      → IsText input p j (take n (drop p bs) ++ t)
  run-IsText zero p j t le plain rest = subst (λ (i : ℕ). IsText input i j t) (omega arith) rest
  run-IsText (suc n) p j t le plain rest =
      let next =
        run-IsText n (p + 1) j t (omega (arith, le))
          (λ i low high. plain i (omega (arith, low)) (omega (arith, high)))
          (let e : p + suc n ≡ p + 1 + n = omega arith in
            subst (λ (i : ℕ). IsText input i j t) e rest) in
      let step : p + 1 ≡ suc p = omega arith in
      let front : input.at p ∷ (take n (drop (p + 1) bs) ++ t) ≡ take (suc n) (drop p bs) ++ t =
        ap (λ (x : ℕ). x ∷ (take n (drop (p + 1) bs) ++ t)) (view.at_eq p (omega (arith, le)))
        ∙ ap (λ (i : ℕ). get_or bs p 0 ∷ (take n (drop i bs) ++ t)) step
        ∙ ap (λ (x : Bytes). take (suc n) x ++ t) (sym (drop-get_or p bs (omega (arith, le)))) in
      subst (IsText input p j) front (plain_byte (plain p (omega arith) (omega arith)) next)

  pub piece-IsText :
      (p q j : ℕ) (t : Bytes)
      → p ≤ q
      → q ≤ length bs
      → ((i : ℕ) → p ≤ i → i < q → ends_run (input.at i) ≡ false)
      → IsText input q j t
      → IsText input p j (piece bs p q ++ t)
  piece-IsText p q j t le le' plain rest =
      let there : q ≡ p + (q - p) = omega (arith, le) in
      run-IsText (q - p) p j t (omega (arith, le, le'))
        (λ i low high. plain i low (omega (arith, high, le)))
        (subst (λ (i : ℕ). IsText input i j t) there rest)

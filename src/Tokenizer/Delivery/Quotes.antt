-- ===== src/Tokenizer/Delivery/Quotes.antt =====
-- The closing quote of a key, that the scan of `process_key` in src/tokenizer.rs looks for.
use rjsonparser.Prelude.{
  ℕ, zero, suc, ◌+◌, ◌-◌, ◌≤◌, ◌<◌, ◌≡◌, ◌≢◌, inl, inr, Bool, Bool-cases, true, Option, ◌==◌,
  ==_iff, arith,
}
use mathlib.Core.Path.{subst}
use rjsonparser.Loopbuf.{Spans}
use rjsonparser.Tokenizer.ObjectKeys.{scan_key, incomplete, closed_at}

-- From a position on, the first quote that no backslash escapes.
pub data Closes (input : Spans) : ℕ → ℕ → Type 0 where
  at_quote : {i : ℕ} → input.at i ≡ b'"' → Closes input i i
  behind_byte :
      {i j : ℕ} → input.at i ≢ b'"' → input.at i ≢ b'\\' → Closes input (i + 1) j → Closes input i j
  behind_escape : {i j : ℕ} → input.at i ≡ b'\\' → Closes input (i + 2) j → Closes input i j

Closes-le : {input : Spans} (i j : ℕ) → Closes input i j → i ≤ j
Closes-le i j (at_quote e) = omega arith
Closes-le i j (behind_byte q b rest) = omega (arith, Closes-le (i + 1) j rest)
Closes-le i j (behind_escape b rest) = omega (arith, Closes-le (i + 2) j rest)

-- Where the scan finds a closing quote, it is this one.
pub scan_key-Closes :
    (input : Spans) (limit : Option ℕ) (start end : ℕ) (escape : Bool) (fuel i : ℕ) (seen : Bool)
    → scan_key fuel input limit start i seen ≡ closed_at end escape
    → Closes input i end
unfolding scan_key
scan_key-Closes input limit start end escape zero i seen e = ground (arith, e)
scan_key-Closes input limit start end escape (suc fuel) i seen e =
    let on = scan_key-Closes input limit start end escape fuel (i + 1) seen in
    let over = scan_key-Closes input limit start end escape fuel (i + 2) true in
    elim (Bool-cases (input.at i == b'"')) [
      | inl quote ↦
          let here : i ≡ end = ground (arith, e, quote) in
          subst (Closes input i) here (at_quote ((==_iff (input.at i) b'"').0 quote))
      | inr other ↦ elim (Bool-cases (input.at i == b'\\')) [
        | inl backslash ↦
            behind_escape ((==_iff (input.at i) b'\\').0 backslash)
              (over (ground (arith, e, other, backslash)))
        | inr plain ↦
            behind_byte (λ q. ground (arith, q, other)) (λ q. ground (arith, q, plain))
              (on (ground (arith, e, other, plain)))
      ]
    ]

-- A way to the quote that goes nowhere.
stuck :
    (input : Spans) (i end : ℕ)
    → Closes input i end
    → input.at i ≢ b'"'
    → (input.at i ≢ b'"' → input.at i ≢ b'\\' → ¬ Closes input (i + 1) end)
    → (input.at i ≡ b'\\' → ¬ Closes input (i + 2) end)
    → ⊥
stuck input i end (at_quote e) quote byte escape = quote e
stuck input i end (behind_byte q b rest) quote byte escape = byte q b rest
stuck input i end (behind_escape b rest) quote byte escape = escape b rest

-- Where the scan asks for more bytes, no closing quote is in those received.
pub scan_key-open :
    (input : Spans) (limit : Option ℕ) (start end : ℕ) (fuel i : ℕ) (seen : Bool)
    → scan_key fuel input limit start i seen ≡ incomplete
    → input.len - i < fuel
    → end < input.len
    → ¬ Closes input i end
unfolding scan_key
scan_key-open input limit start end zero i seen e enough inside closes =
    absurd (omega (arith, enough))
scan_key-open input limit start end (suc fuel) i seen e enough inside closes =
    let on = λ (h : scan_key fuel input limit start (i + 1) seen ≡ incomplete) (le : i < input.len).
      scan_key-open input limit start end fuel (i + 1) seen h (omega (arith, enough, le)) inside in
    let over =
      λ (h : scan_key fuel input limit start (i + 2) true ≡ incomplete) (le : i < input.len).
        scan_key-open input limit start end fuel (i + 2) true h (omega (arith, enough, le))
          inside in
    let before : i < input.len = omega (arith, Closes-le i end closes, inside) in
    stuck input i end closes (λ q. ground (arith, e, q, before))
      (λ q b. on (ground (arith, e, q, b, before)) before)
      (λ b. over (ground (arith, e, b, before)) before)

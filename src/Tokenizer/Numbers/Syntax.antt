-- ===== src/Tokenizer/Numbers/Syntax.antt =====
-- The numbers of the JSON grammar (RFC 8259, section 6), and the stages that the reader goes through on
-- one: half of what makes it accept exactly these.
use rjsonparser.Prelude.{ℕ, ◌≤◌, ◌≡◌, refl, ◌∙◌, ◌⊎◌, [], ◌∷◌, Bytes, arith, some}
use rjsonparser.Tokenizer.Numbers.{
  NumStage, after_minus, leading_zero, integer, fraction_dot, fraction, exponent_mark,
  exponent_sign, exponent,
}
use rjsonparser.Tokenizer.Numbers.Digits.{IsDigit}
use rjsonparser.Tokenizer.Numbers.Stages.{next_stage, walk, walk-next, walk-some}

abbrev pub IsMark : ℕ → Type 0
IsMark b = (b ≡ b'e') ⊎ (b ≡ b'E')

abbrev pub IsSign : ℕ → Type 0
IsSign b = (b ≡ b'+') ⊎ (b ≡ b'-')

-- *DIGIT
pub data Digits : Bytes → Type 0 where
  end : Digits []
  digit : {b : ℕ} {bs : Bytes} → IsDigit b → Digits bs → Digits (b ∷ bs)

-- [ exp ]
pub data ExponentPart : Bytes → Type 0 where
  no_exponent : ExponentPart []
  plain : {e d : ℕ} {bs : Bytes} → IsMark e → IsDigit d → Digits bs → ExponentPart (e ∷ d ∷ bs)
  signed :
      {e c d : ℕ} {bs : Bytes}
      → IsMark e
      → IsSign c
      → IsDigit d
      → Digits bs
      → ExponentPart (e ∷ c ∷ d ∷ bs)

-- *DIGIT [ exp ]
pub data FractionTail : Bytes → Type 0 where
  more : {b : ℕ} {bs : Bytes} → IsDigit b → FractionTail bs → FractionTail (b ∷ bs)
  then_exponent : {bs : Bytes} → ExponentPart bs → FractionTail bs

-- [ frac ] [ exp ]
pub data FractionPart : Bytes → Type 0 where
  no_fraction : {bs : Bytes} → ExponentPart bs → FractionPart bs
  point :
      {p d : ℕ} {bs : Bytes} → p ≡ b'.' → IsDigit d → FractionTail bs → FractionPart (p ∷ d ∷ bs)

-- *DIGIT [ frac ] [ exp ]
pub data IntegerTail : Bytes → Type 0 where
  another : {b : ℕ} {bs : Bytes} → IsDigit b → IntegerTail bs → IntegerTail (b ∷ bs)
  then_fraction : {bs : Bytes} → FractionPart bs → IntegerTail bs

-- int [ frac ] [ exp ]
pub data IntegerPart : Bytes → Type 0 where
  zero_int : {b : ℕ} {bs : Bytes} → b ≡ b'0' → FractionPart bs → IntegerPart (b ∷ bs)
  positive : {b : ℕ} {bs : Bytes} → b'1' ≤ b → b ≤ b'9' → IntegerTail bs → IntegerPart (b ∷ bs)

-- number = [ minus ] int [ frac ] [ exp ]
pub data IsNumber : Bytes → Type 0 where
  unsigned : {bs : Bytes} → IntegerPart bs → IsNumber bs
  minus : {b : ℕ} {bs : Bytes} → b ≡ b'-' → IntegerPart bs → IsNumber (b ∷ bs)

-- The stages at which a number may end.
abbrev pub IsFinal : NumStage → Type 0
IsFinal leading_zero = Unit
IsFinal integer = Unit
IsFinal fraction = Unit
IsFinal exponent = Unit
IsFinal _ = ⊥

-- From each stage, the bytes that lead to a final one.
abbrev pub Finishes : NumStage → Bytes → Type 0
Finishes m bs = (n : NumStage) × (walk m bs ≡ some n) × IsFinal n

pub Finishes-cons :
    (m k : NumStage) (b : ℕ) (bs : Bytes)
    → next_stage m b ≡ some k
    → Finishes k bs
    → Finishes m (b ∷ bs)
Finishes-cons m k b bs e (n, w, f) = (n, walk-next m k b bs e ∙ w, f)

pub Finishes-tail :
    (m : NumStage) (b : ℕ) (bs : Bytes)
    → Finishes m (b ∷ bs)
    → (k : NumStage) × (next_stage m b ≡ some k) × Finishes k bs
Finishes-tail m b bs (n, w, f) = let (k, e, later) = walk-some m n b bs w in (k, e, (n, later, f))

pub Finishes-nil : (m : NumStage) → Finishes m [] → IsFinal m
unfolding walk
Finishes-nil m (n, w, f) = let same : m ≡ n = cc in rw same f

pub Digits-finish : {bs : Bytes} → Digits bs → Finishes exponent bs
Digits-finish end = (exponent, unfold walk in refl, tt)
Digits-finish (digit {b} {bs} h ds) =
    Finishes-cons exponent exponent b bs (ground arith) (Digits-finish ds)

pub exponent_finish :
    {bs : Bytes} (m : NumStage)
    → IsFinal m
    → ((b : ℕ) → IsMark b → next_stage m b ≡ some exponent_mark)
    → ExponentPart bs
    → Finishes m bs
exponent_finish m f mark no_exponent = (m, unfold walk in refl, f)
exponent_finish m f mark (plain {e} {d} {bs} h hd ds) =
    Finishes-cons m exponent_mark e (d ∷ bs) (mark e h)
      (Finishes-cons exponent_mark exponent d bs (ground arith) (Digits-finish ds))
exponent_finish m f mark (signed {e} {c} {d} {bs} h hc hd ds) =
    Finishes-cons m exponent_mark e (c ∷ d ∷ bs) (mark e h) (
      Finishes-cons exponent_mark exponent_sign c (d ∷ bs) (ground arith)
        (Finishes-cons exponent_sign exponent d bs (ground arith) (Digits-finish ds)))

pub FractionTail-finish : {bs : Bytes} → FractionTail bs → Finishes fraction bs
FractionTail-finish (more {b} {bs} h t) =
    Finishes-cons fraction fraction b bs (ground arith) (FractionTail-finish t)
FractionTail-finish (then_exponent x) = exponent_finish fraction tt (λ b h. ground arith) x

pub fraction_finish :
    {bs : Bytes} (m : NumStage)
    → IsFinal m
    → ((b : ℕ) → IsMark b → next_stage m b ≡ some exponent_mark)
    → next_stage m b'.' ≡ some fraction_dot
    → FractionPart bs
    → Finishes m bs
fraction_finish m f mark dot (no_fraction x) = exponent_finish m f mark x
fraction_finish m f mark dot (point {p} {d} {bs} e h t) =
    Finishes-cons m fraction_dot p (d ∷ bs) (rw e dot)
      (Finishes-cons fraction_dot fraction d bs (ground arith) (FractionTail-finish t))

pub IntegerTail-finish : {bs : Bytes} → IntegerTail bs → Finishes integer bs
IntegerTail-finish (another {b} {bs} h t) =
    Finishes-cons integer integer b bs (ground arith) (IntegerTail-finish t)
IntegerTail-finish (then_fraction x) = fraction_finish integer tt (λ b h. ground arith) refl x

pub IntegerPart-finish : {bs : Bytes} → IntegerPart bs → Finishes after_minus bs
IntegerPart-finish (zero_int {b} {bs} e x) =
    Finishes-cons after_minus leading_zero b bs (ground arith)
      (fraction_finish leading_zero tt (λ b h. ground arith) refl x)
IntegerPart-finish (positive {b} {bs} lo hi t) =
    Finishes-cons after_minus integer b bs (ground arith) (IntegerTail-finish t)

-- The other direction: what a stage takes, and where it leads.
pub at_exponent :
    (b : ℕ) (k : NumStage) → next_stage exponent b ≡ some k → IsDigit b × (k ≡ exponent)
at_exponent b k e = (ground arith, ground arith)

pub at_exponent_sign :
    (b : ℕ) (k : NumStage) → next_stage exponent_sign b ≡ some k → IsDigit b × (k ≡ exponent)
at_exponent_sign b k e = (ground arith, ground arith)

pub at_exponent_mark :
    (b : ℕ) (k : NumStage)
    → next_stage exponent_mark b ≡ some k
    → (IsSign b × (k ≡ exponent_sign)) ⊎ (IsDigit b × (k ≡ exponent))
at_exponent_mark b k e = ground arith

pub at_fraction :
    (b : ℕ) (k : NumStage)
    → next_stage fraction b ≡ some k
    → (IsDigit b × (k ≡ fraction)) ⊎ (IsMark b × (k ≡ exponent_mark))
at_fraction b k e = ground arith

pub at_fraction_dot :
    (b : ℕ) (k : NumStage) → next_stage fraction_dot b ≡ some k → IsDigit b × (k ≡ fraction)
at_fraction_dot b k e = (ground arith, ground arith)

pub at_integer :
    (b : ℕ) (k : NumStage)
    → next_stage integer b ≡ some k
    → (IsDigit b × (k ≡ integer))
      ⊎ ((b ≡ b'.') × (k ≡ fraction_dot))
      ⊎ (IsMark b × (k ≡ exponent_mark))
at_integer b k e = ground arith

pub at_leading_zero :
    (b : ℕ) (k : NumStage)
    → next_stage leading_zero b ≡ some k
    → ((b ≡ b'.') × (k ≡ fraction_dot)) ⊎ (IsMark b × (k ≡ exponent_mark))
at_leading_zero b k e = ground arith

pub at_after_minus :
    (b : ℕ) (k : NumStage)
    → next_stage after_minus b ≡ some k
    → ((b ≡ b'0') × (k ≡ leading_zero)) ⊎ ((b'1' ≤ b) × (b ≤ b'9') × (k ≡ integer))
at_after_minus b k e = ground arith

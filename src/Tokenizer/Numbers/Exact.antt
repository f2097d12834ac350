-- ===== src/Tokenizer/Numbers/Exact.antt =====
-- What the accumulators of the number reader say of the digits read: the digits that fit are kept
-- exactly in the mantissa, and the rest is bounded by the first dropped digit.
use native.Mathlib.Nat.{pow-suc}
use mathlib.Core.Path.{subst}
use rjsonparser.Prelude.{
  ℕ, zero, suc, ◌+◌, ◌-◌, ◌*◌, ◌/◌, ◌^◌, ◌≤◌, ◌<◌, ◌≡◌, refl, sym, ap, ◌∙◌, ◌⊎◌, inl, inr, Bool,
  true, false, leb, ◌==◌, if◌then◌else◌, Bool-cases, arith,
}
use rjsonparser.Prelude.Int.{pos, negsuc, sub_ℕ, ◌+ℤ◌, wrap_i32, wrap_i32-add}
use rjsonparser.Tokenizer.Numbers.{NumberState, i64_max, take_digit}

-- The state after digits that stand for `value`, of which the last `dropped` are not in the
-- mantissa: the mantissa, the first dropped digit `f` and the flag bound the rest.
abbrev pub Keeps : ℕ → ℕ → NumberState → Type 0
Keeps zero value s = (s.mantissa_full ≡ false) × (s.mantissa ≡ value)
Keeps (suc k) value s =
    (f : ℕ) × (s.mantissa_full ≡ true)
    × (s.first_dropped ≡ pos f)
    × (s.mantissa * (10 * 10 ^ k) + f * 10 ^ k ≤ value)
    × (value < s.mantissa * (10 * 10 ^ k) + (f + 1) * 10 ^ k)
    × (s.dropped_non_zero ≡ false → value ≡ s.mantissa * (10 * 10 ^ k))
    × (s.dropped_non_zero ≡ true → s.mantissa * (10 * 10 ^ k) < value)

-- After digits that stand for `value`, `fraction_digits` of them behind the point: the number read
-- is `value / 10 ^ fraction_digits`, and `mantissa * 10 ^ decimal_shift` is its kept part.
pub record Accumulated (value fraction_digits : ℕ) (s : NumberState) : Type 0 where
  pub dropped : ℕ
  pub dropped_integer : ℕ
  pub kept_fraction : ℕ
  pub counts : dropped + kept_fraction ≡ dropped_integer + fraction_digits
  pub shift : s.decimal_shift ≡ wrap_i32 (sub_ℕ dropped_integer kept_fraction)
  pub keeps : Keeps dropped value s

wrap_up : (a b : ℕ) → wrap_i32 (wrap_i32 (sub_ℕ a b) +ℤ pos 1) ≡ wrap_i32 (sub_ℕ (a + 1) b)
wrap_up a b = wrap_i32-add (sub_ℕ a b) (pos 1) ∙ ap wrap_i32 (unfold ◌+ℤ◌ in ground arith)

wrap_down : (a b : ℕ) → wrap_i32 (wrap_i32 (sub_ℕ a b) +ℤ negsuc 0) ≡ wrap_i32 (sub_ℕ a (b + 1))
wrap_down a b = wrap_i32-add (sub_ℕ a b) (negsuc 0) ∙ ap wrap_i32 (unfold ◌+ℤ◌ in ground arith)

-- the fields once the mantissa is full
record Dropped (s t : NumberState) (d f : ℕ) : Type 0 where
  mantissa_same : t.mantissa ≡ s.mantissa
  full : t.mantissa_full ≡ true
  first : t.first_dropped ≡ pos f
  flag : t.dropped_non_zero ≡ (if d == 0 then s.dropped_non_zero else true)

take_digit-Dropped :
    (s : NumberState) (d f : ℕ) (in_fraction : Bool)
    → s.mantissa_full ≡ true
    → s.first_dropped ≡ pos f
    → Dropped s (take_digit s d in_fraction) d f
unfolding take_digit
take_digit-Dropped s d f in_fraction h e = record {
  mantissa_same = ground arith;
  full = ground arith;
  first = ground arith;
  flag = ground arith;
}

flag_clear : (d : ℕ) (b : Bool) → (if d == 0 then b else true) ≡ false → (d ≡ 0) × (b ≡ false)
flag_clear d b h = ground arith

flag_set : (d : ℕ) (b : Bool) → (if d == 0 then b else true) ≡ true → (0 < d) ⊎ (b ≡ true)
flag_set d b h = ground arith

Keeps-drop_more :
    (k value d f : ℕ) (s t : NumberState)
    → d ≤ 9
    → Dropped s t d f
    → s.mantissa * (10 * 10 ^ k) + f * 10 ^ k ≤ value
    → value < s.mantissa * (10 * 10 ^ k) + (f + 1) * 10 ^ k
    → (s.dropped_non_zero ≡ false → value ≡ s.mantissa * (10 * 10 ^ k))
    → (s.dropped_non_zero ≡ true → s.mantissa * (10 * 10 ^ k) < value)
    → Keeps (suc (suc k)) (value * 10 + d) t
Keeps-drop_more k value d f s t h g low high even odd =
    rw (pow-suc, g.mantissa_same)
      (
        f,
        g.full,
        g.first,
        omega arith,
        omega arith,
        λ off.
            (let (zero_digit, old) = flag_clear d s.dropped_non_zero (sym g.flag ∙ off) in
              omega (arith, even old)),
        λ on. elim (flag_set d s.dropped_non_zero (sym g.flag ∙ on)) [
          | inl positive ↦ omega arith
          | inr old ↦ omega (arith, odd old)
        ],
      )

-- The first digit that does not fit.
Keeps-drop_first :
    (s : NumberState) (d : ℕ) (in_fraction : Bool)
    → d ≤ 9
    → s.mantissa_full ≡ false
    → leb s.mantissa ((i64_max - d) / 10) ≡ false
    → Keeps 1 (s.mantissa * 10 + d) (take_digit s d in_fraction)
unfolding take_digit
Keeps-drop_first s d in_fraction h room no_room =
    rw (room, no_room)
      (d, refl, refl, omega arith, omega arith, (λ off. ground arith), (λ on. ground arith))

-- Either way a dropped digit of the integer part scales the value.
dropped_shift :
    (s : NumberState) (d : ℕ) (in_fraction : Bool)
    → (s.mantissa_full ≡ true)
      ⊎ ((s.mantissa_full ≡ false) × (leb s.mantissa ((i64_max - d) / 10) ≡ false))
    → (take_digit s d in_fraction).decimal_shift
      ≡ (if in_fraction then s.decimal_shift else wrap_i32 (s.decimal_shift +ℤ pos 1))
unfolding take_digit
dropped_shift s d in_fraction h = ground arith

module _ (value fd d : ℕ) (s : NumberState) (in_fraction : Bool) (h : d ≤ 9) where
  Accumulated-drop :
      (k di kf : ℕ)
      → (s.mantissa_full ≡ true)
        ⊎ ((s.mantissa_full ≡ false) × (leb s.mantissa ((i64_max - d) / 10) ≡ false))
      → k + kf ≡ di + fd
      → s.decimal_shift ≡ wrap_i32 (sub_ℕ di kf)
      → Keeps (suc k) (value * 10 + d) (take_digit s d in_fraction)
      → Accumulated
          (value * 10 + d)
          (if in_fraction then fd + 1 else fd)
          (take_digit s d in_fraction)
  Accumulated-drop k di kf how counts shift keeps = record {
    dropped = suc k;
    dropped_integer = if in_fraction then di else di + 1;
    kept_fraction = kf;
    counts = ground arith;
    shift = ground (arith, dropped_shift s d in_fraction how, wrap_up di kf);
    keeps = keeps;
  }

  Accumulated-keep :
      (di kf : ℕ)
      → s.mantissa_full ≡ false
      → s.mantissa ≡ value
      → leb s.mantissa ((i64_max - d) / 10) ≡ true
      → kf ≡ di + fd
      → s.decimal_shift ≡ wrap_i32 (sub_ℕ di kf)
      → Accumulated
          (value * 10 + d)
          (if in_fraction then fd + 1 else fd)
          (take_digit s d in_fraction)
  unfolding take_digit
  Accumulated-keep di kf room same fits counts shift = record {
    dropped = 0;
    dropped_integer = di;
    kept_fraction = if in_fraction then kf + 1 else kf;
    counts = ground arith;
    shift = ground (arith, wrap_down di kf);
    keeps = (ground arith, ground arith);
  }

  -- One digit more, before the point or behind it.
  pub take_digit-Accumulated :
      Accumulated value fd s
      → Accumulated
          (value * 10 + d)
          (if in_fraction then fd + 1 else fd)
          (take_digit s d in_fraction)
  take_digit-Accumulated a = go a.dropped a.keeps a.counts
    where
      go :
          (k : ℕ)
          → Keeps k value s
          → k + a.kept_fraction ≡ a.dropped_integer + fd
          → Accumulated
              (value * 10 + d)
              (if in_fraction then fd + 1 else fd)
              (take_digit s d in_fraction)
      go zero (room, same) counts = elim (Bool-cases (leb s.mantissa ((i64_max - d) / 10))) [
        | inl fits ↦
            Accumulated-keep a.dropped_integer a.kept_fraction room same fits (omega arith) a.shift
        | inr no_room ↦
            Accumulated-drop 0 a.dropped_integer a.kept_fraction (inr (room, no_room)) counts
              a.shift
              (subst (λ v. Keeps 1 (v * 10 + d) (take_digit s d in_fraction)) same
                (Keeps-drop_first s d in_fraction h room no_room))
      ]
      go (suc k) (f, is_full, first, low, high, even, odd) counts =
          Accumulated-drop (suc k) a.dropped_integer a.kept_fraction (inl is_full) counts a.shift (
            Keeps-drop_more k value d f s (take_digit s d in_fraction) h
              (take_digit-Dropped s d f in_fraction is_full first) low high even odd)

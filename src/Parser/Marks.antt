-- ===== src/Parser/Marks.antt =====
-- The byte order mark, of `check_bom` in src/parser.rs.
use rjsonparser.Prelude.{
  Bool-cases, ℕ, zero, suc, ◌≤◌, ◌<◌, ◌≡◌, ◌≢◌, ◌↔◌, ◌⊎◌, inl, inr, refl, sym, ◌∙◌, Bool, true,
  false, [], ◌∷◌, ◌++◌, Bytes, ◌==◌, length, length-append, get_or, take, arith,
}
use rjsonparser.Error.{Result, ok, err}
use rjsonparser.Loopbuf.{Spans, IsView}
use rjsonparser.Parser.{Bom, need_more, skip, check_bom, bom_ef, bom_fe, bom_ff, bom_zero}

get_or-append : (i : ℕ) (xs ys : Bytes) → i < length xs → get_or (xs ++ ys) i 0 ≡ get_or xs i 0
get_or-append i [] ys h = elim h [ ]
get_or-append zero (x ∷ xs) ys h = refl
get_or-append (suc i) (x ∷ xs) ys h = get_or-append i xs ys (omega (arith, h))

-- The later ring shows the same bytes where the earlier one had some.
abbrev Agree : Spans → Spans → ℕ → Type 0
Agree input later i = i < input.len → later.at i ≡ input.at i

agree :
    {input later : Spans} {bs : Bytes} (more : Bytes)
    → IsView input bs
    → IsView later (bs ++ more)
    → (i : ℕ) → Agree input later i
agree {bs = bs} more view view' i h =
    let inside : i < length bs = omega (arith, h, view.len_eq) in
    view'.at_eq i (omega (arith, inside, length-append bs more))
    ∙ get_or-append i bs more inside
    ∙ sym (view.at_eq i inside)

bom_ef-stable :
    (input later : Spans)
    → 0 < input.len
    → input.len ≤ later.len
    → Agree input later 1
    → Agree input later 2
    → bom_ef input.len input ≢ ok need_more
    → bom_ef later.len later ≡ bom_ef input.len input
unfolding bom_ef
bom_ef-stable input later pos le a1 a2 h = ground (arith, h, a1, a2)

bom_fe-stable :
    (input later : Spans)
    → input.len ≤ later.len
    → Agree input later 1
    → bom_fe input.len input ≢ ok need_more
    → bom_fe later.len later ≡ bom_fe input.len input
unfolding bom_fe
bom_fe-stable input later le a1 h = ground (arith, h, a1)

bom_ff-stable :
    (input later : Spans)
    → input.len ≤ later.len
    → Agree input later 1
    → Agree input later 2
    → Agree input later 3
    → bom_ff input.len input ≢ ok need_more
    → bom_ff later.len later ≡ bom_ff input.len input
unfolding bom_ff
bom_ff-stable input later le a1 a2 a3 h = ground (arith, h, a1, a2, a3)

bom_zero-stable :
    (input later : Spans)
    → input.len ≤ later.len
    → Agree input later 1
    → Agree input later 2
    → Agree input later 3
    → bom_zero input.len input ≢ ok need_more
    → bom_zero later.len later ≡ bom_zero input.len input
unfolding bom_zero
bom_zero-stable input later le a1 a2 a3 h = ground (arith, h, a1, a2, a3)

-- What `check_bom` has decided on the bytes that have arrived, a mark, no mark or an encoding refused, it
-- decides again when more bytes follow, however both rings split theirs.
pub check_bom-append :
    {input later : Spans} {bs : Bytes} (more : Bytes)
    → IsView input bs
    → IsView later (bs ++ more)
    → check_bom input ≢ ok need_more
    → check_bom later ≡ check_bom input
unfolding check_bom
check_bom-append {input} {later} {bs} more view view' h =
    let le : input.len ≤ later.len =
      omega (arith, view.len_eq, view'.len_eq, length-append bs more) in
    let a = agree more view view' in
    ground (
      arith,
      h,
      a 0,
      λ (p : 0 < input.len). bom_ef-stable input later p le (a 1) (a 2),
      bom_fe-stable input later le (a 1),
      bom_ff-stable input later le (a 1) (a 2) (a 3),
      bom_zero-stable input later le (a 1) (a 2) (a 3),
    )

-- The bytes begin with those.
abbrev pub Starts : Bytes → Bytes → Type 0
Starts mark bs = take (length mark) bs ≡ mark

-- The marks of the encodings that are refused.
abbrev pub IsForeign : Bytes → Type 0
IsForeign bs =
    Starts (0xFE ∷ 0xFF ∷ []) bs
    ⊎ ((Starts (0xFF ∷ 0xFE ∷ []) bs × (4 ≤ length bs))
        ⊎ Starts (0x00 ∷ 0x00 ∷ 0xFE ∷ 0xFF ∷ []) bs)

abbrev pub is_err : Result Bom → Bool
is_err (ok b) = false
is_err (err e) = true

abbrev pub Judged : Bytes → Result Bom → Type 0
Judged bs r =
    ((r ≡ ok (skip 3)) ↔ Starts (0xEF ∷ 0xBB ∷ 0xBF ∷ []) bs)
    × ((is_err r ≡ true) ↔ IsForeign bs)
    × (r ≡ ok need_more → length bs < 4)

-- `check_bom` on the bytes themselves.
abbrev Reads : Spans → Bytes → Type 0
Reads input bs =
    (input.len ≡ length bs)
    × ((0 < length bs → input.at 0 ≡ get_or bs 0 0)
        × ((1 < length bs → input.at 1 ≡ get_or bs 1 0)
            × ((2 < length bs → input.at 2 ≡ get_or bs 2 0)
                × (3 < length bs → input.at 3 ≡ get_or bs 3 0))))

bom_ef-Judged :
    (input : Spans) (bs : Bytes)
    → Reads input bs
    → 0 < length bs
    → get_or bs 0 0 ≡ 0xEF
    → Judged bs (bom_ef input.len input)
unfolding bom_ef
bom_ef-Judged input [] r h e = elim h [ ]
bom_ef-Judged input (a ∷ []) r h e = ground (arith, r, e)
bom_ef-Judged input (a ∷ b ∷ []) r h e = ground (arith, r, e)
bom_ef-Judged input (a ∷ b ∷ c ∷ []) r h e = ground (arith, r, e)
bom_ef-Judged input (a ∷ b ∷ c ∷ d ∷ bs) r h e = ground (arith, r, e)

bom_fe-Judged :
    (input : Spans) (bs : Bytes)
    → Reads input bs
    → 0 < length bs
    → get_or bs 0 0 ≡ 0xFE
    → Judged bs (bom_fe input.len input)
unfolding bom_fe
bom_fe-Judged input [] r h e = elim h [ ]
bom_fe-Judged input (a ∷ []) r h e = ground (arith, r, e)
bom_fe-Judged input (a ∷ b ∷ []) r h e = ground (arith, r, e)
bom_fe-Judged input (a ∷ b ∷ c ∷ []) r h e = ground (arith, r, e)
bom_fe-Judged input (a ∷ b ∷ c ∷ d ∷ bs) r h e = ground (arith, r, e)

bom_ff-Judged :
    (input : Spans) (bs : Bytes)
    → Reads input bs
    → 0 < length bs
    → get_or bs 0 0 ≡ 0xFF
    → Judged bs (bom_ff input.len input)
unfolding bom_ff
bom_ff-Judged input [] r h e = elim h [ ]
bom_ff-Judged input (a ∷ []) r h e = ground (arith, r, e)
bom_ff-Judged input (a ∷ b ∷ []) r h e = ground (arith, r, e)
bom_ff-Judged input (a ∷ b ∷ c ∷ []) r h e = ground (arith, r, e)
bom_ff-Judged input (a ∷ b ∷ c ∷ d ∷ bs) r h e = ground (arith, r, e)

bom_zero-Judged :
    (input : Spans) (bs : Bytes)
    → Reads input bs
    → 0 < length bs
    → get_or bs 0 0 ≡ 0x00
    → Judged bs (bom_zero input.len input)
unfolding bom_zero
bom_zero-Judged input [] r h e = elim h [ ]
bom_zero-Judged input (a ∷ []) r h e = ground (arith, r, e)
bom_zero-Judged input (a ∷ b ∷ []) r h e = ground (arith, r, e)
bom_zero-Judged input (a ∷ b ∷ c ∷ []) r h e = ground (arith, r, e)
bom_zero-Judged input (a ∷ b ∷ c ∷ d ∷ bs) r h e = ground (arith, r, e)

-- Any other first byte starts no mark.
skip-Judged :
    (a : ℕ) (bs : Bytes)
    → (a == 0xEF) ≡ false
    → (a == 0xFE) ≡ false
    → (a == 0xFF) ≡ false
    → (a == 0x00) ≡ false
    → Judged (a ∷ bs) (ok (skip 0))
skip-Judged a [] e1 e2 e3 e4 = ground (arith, e1, e2, e3, e4)
skip-Judged a (b ∷ []) e1 e2 e3 e4 = ground (arith, e1, e2, e3, e4)
skip-Judged a (b ∷ c ∷ []) e1 e2 e3 e4 = ground (arith, e1, e2, e3, e4)
skip-Judged a (b ∷ c ∷ d ∷ bs) e1 e2 e3 e4 = ground (arith, e1, e2, e3, e4)

reads : {input : Spans} {bs : Bytes} → IsView input bs → Reads input bs
reads view = (view.len_eq, (view.at_eq 0, (view.at_eq 1, (view.at_eq 2, view.at_eq 3))))

-- `check_bom` skips three bytes exactly where the bytes start with the UTF-8 mark, refuses exactly those
-- that start with a mark of UTF-16 or UTF-32 (little endian once four bytes are there), and asks for
-- more only while there are fewer than four.
pub check_bom-Judged : {input : Spans} (bs : Bytes) → IsView input bs → Judged bs (check_bom input)
unfolding check_bom
check_bom-Judged {input} [] view = ground (arith, view.len_eq)
check_bom-Judged {input} (a ∷ bs) view =
    let r = reads view in
    let first : input.at 0 ≡ a = view.at_eq 0 (omega arith) in
    let some_left : (input.len == 0) ≡ false = ground (arith, view.len_eq) in
    rw (some_left, first)
      (elim (Bool-cases (a == 0xEF)) [
        | inl ef ↦ rw ef (bom_ef-Judged input (a ∷ bs) r (omega arith) (ground (arith, ef)))
        | inr no_ef ↦ elim (Bool-cases (a == 0xFE)) [
          | inl fe ↦
              rw (no_ef, fe) (bom_fe-Judged input (a ∷ bs) r (omega arith) (ground (arith, fe)))
          | inr no_fe ↦ elim (Bool-cases (a == 0xFF)) [
            | inl ff ↦
                rw (no_ef, no_fe, ff)
                  (bom_ff-Judged input (a ∷ bs) r (omega arith) (ground (arith, ff)))
            | inr no_ff ↦ elim (Bool-cases (a == 0x00)) [
              | inl z ↦
                  rw (no_ef, no_fe, no_ff, z)
                    (bom_zero-Judged input (a ∷ bs) r (omega arith) (ground (arith, z)))
              | inr no_z ↦ rw (no_ef, no_fe, no_ff, no_z) (skip-Judged a bs no_ef no_fe no_ff no_z)
            ]
          ]
        ]
      ])

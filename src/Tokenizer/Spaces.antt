-- ===== src/Tokenizer/Spaces.antt =====
-- Whitespace, of `process_whitespace` in src/tokenizer.rs: where the position is after it.
use rjsonparser.Prelude.{
  ℕ, zero, suc, ◌+◌, ◌-◌, ◌≤◌, ◌<◌, ◌≡◌, refl, sym, ap, ◌∙◌, Bool, true, false, ◌&&◌, ◌||◌, [], ◌∷◌,
  ◌++◌, Bytes, ltb, ◌==◌, if◌then◌else◌, length, get_or, drop, drop-append_length, All, Bool-cases,
  inl, inr, arith, ltb→lt, ==_iff,
}
use mathlib.Core.Path.{subst}
use rjsonparser.Loopbuf.{Spans, IsView}
use rjsonparser.Tokenizer.Escapes.Peek.{drop-get_or, drop_past}
use rjsonparser.Error.{ok}
use rjsonparser.Tokenizer.Machine.{Machine, Env}
use rjsonparser.Tokenizer.Receive.{process_whitespace, Run, is_space, space_byte, space_loop}

-- The loop over the bytes themselves.
unfoldable pub fold_spaces : Run → Bytes → Run
fold_spaces r [] = r
fold_spaces r (b ∷ bs) =
    let rest = fold_spaces (space_byte r b) bs in if is_space b then rest else r

pub space_byte-p : (r : Run) (b : ℕ) → (space_byte r b).p ≡ suc r.p
unfolding space_byte
space_byte-p r b = ground arith

-- With as much fuel as there are bytes left, the loop over the ring is the loop over its bytes.
pub space_loop-fold_spaces :
    {input : Spans} {bs : Bytes}
    → IsView input bs
    → (fuel : ℕ) (r : Run) → length bs ≤ r.p + fuel
    → space_loop fuel input r ≡ fold_spaces r (drop r.p bs)
unfolding space_loop fold_spaces
space_loop-fold_spaces {input} {bs} view zero r h = rw (drop_past r.p bs (omega (arith, h))) refl
space_loop-fold_spaces {input} {bs} view (suc fuel) r h = elim (Bool-cases (ltb r.p input.len)) [
  | inl more ↦
      let inside : r.p < length bs = omega (arith, view.len_eq, ltb→lt r.p input.len more) in
      let next =
        space_loop-fold_spaces view fuel (space_byte r (get_or bs r.p 0))
          (omega (arith, h, space_byte-p r (get_or bs r.p 0))) in
      let behind : drop (space_byte r (get_or bs r.p 0)).p bs ≡ drop (suc r.p) bs =
        ap (λ (k : ℕ). drop k bs) (space_byte-p r (get_or bs r.p 0)) in
      rw (more, view.at_eq r.p inside, drop-get_or r.p bs inside)
        (ap (λ (x : Run). if is_space (get_or bs r.p 0) then x else r)
          (next ∙ ap (fold_spaces (space_byte r (get_or bs r.p 0))) behind))
  | inr done ↦ rw (done, drop_past r.p bs (ground (arith, view.len_eq))) refl
]

-- Line breaks as the JSON text has them: CR LF, a lone CR and a lone LF are one each.
unfoldable pub line_breaks : Bytes → ℕ
line_breaks [] = 0
line_breaks (a ∷ []) = if a == b'\n' || a == b'\r' then 1 else 0
line_breaks (a ∷ b ∷ bs) =
    let both = line_breaks bs in
    let rest = line_breaks (b ∷ bs) in
    if a == b'\r' && b == b'\n'
    then suc both
    else if a == b'\n' || a == b'\r'
    then suc rest
    else rest

-- The column after some whitespace that starts at a column.
unfoldable pub column_after : ℕ → Bytes → ℕ
column_after column [] = column
column_after column (b ∷ bs) =
    let fresh = column_after 1 bs in
    let further = column_after (column + 1) bs in
    if b == b'\n' || b == b'\r' then fresh else further

line_breaks-lf : (bs : Bytes) → line_breaks (b'\n' ∷ bs) ≡ suc (line_breaks bs)
unfolding line_breaks
line_breaks-lf [] = refl
line_breaks-lf (b ∷ bs) = refl

line_breaks-cr :
    (b : ℕ) (bs : Bytes)
    → (b == b'\n') ≡ false
    → line_breaks (b'\r' ∷ b ∷ bs) ≡ suc (line_breaks (b ∷ bs))
unfolding line_breaks
line_breaks-cr b bs h = rw h refl

line_breaks-other :
    (b : ℕ) (bs : Bytes)
    → (b == b'\n') ≡ false
    → (b == b'\r') ≡ false
    → line_breaks (b ∷ bs) ≡ line_breaks bs
unfolding line_breaks
line_breaks-other b [] h k = rw (h, k) refl
line_breaks-other b (c ∷ bs) h k = rw (h, k) refl

-- A CR that may still be the first half of a CR LF.
abbrev pub pending : Bool → Bytes → Bytes
pending true bs = b'\r' ∷ bs
pending false bs = bs

abbrev pub carry : Bool → ℕ
carry true = 1
carry false = 0

space_byte-lf :
    (r : Run)
    → space_byte r b'\n' ≡ record r {
      line = if r.after_cr then r.line else r.line + 1;
      column = 1;
      after_cr = false;
      p = r.p + 1;
    }
unfolding space_byte
space_byte-lf r = refl

space_byte-cr :
    (r : Run)
    → space_byte r b'\r' ≡ record r { line = r.line + 1; column = 1; after_cr = true; p = r.p + 1 }
unfolding space_byte
space_byte-cr r = refl

space_byte-other :
    (r : Run) (b : ℕ)
    → (b == b'\n') ≡ false
    → (b == b'\r') ≡ false
    → space_byte r b ≡ record r { column = r.column + 1; after_cr = false; p = r.p + 1 }
unfolding space_byte
space_byte-other r b h k = rw (h, k) refl

line_breaks-crlf : (bs : Bytes) → line_breaks (b'\r' ∷ b'\n' ∷ bs) ≡ suc (line_breaks bs)
unfolding line_breaks
line_breaks-crlf bs = refl

-- What a byte adds to the lines counted, and takes from the breaks to come.
abbrev Balanced : Run → Bool → ℕ → Bytes → Type 0
Balanced r c b bs =
    (space_byte r b).line + line_breaks (pending (space_byte r b).after_cr bs) + carry c
    ≡ r.line + line_breaks (pending c (b ∷ bs)) + carry (space_byte r b).after_cr

lf-Balanced : (r : Run) (c : Bool) (bs : Bytes) → r.after_cr ≡ c → Balanced r c b'\n' bs
lf-Balanced r true bs e = rw (space_byte-lf r, e) (omega (arith, line_breaks-crlf bs))
lf-Balanced r false bs e = rw (space_byte-lf r, e) (omega (arith, line_breaks-lf bs))

cr-Balanced : (r : Run) (c : Bool) (bs : Bytes) → r.after_cr ≡ c → Balanced r c b'\r' bs
cr-Balanced r true bs e = rw (space_byte-cr r) (omega (arith, line_breaks-cr b'\r' bs refl))
cr-Balanced r false bs e = rw (space_byte-cr r) (omega arith)

other-Balanced :
    (r : Run) (c : Bool) (b : ℕ) (bs : Bytes)
    → (b == b'\n') ≡ false
    → (b == b'\r') ≡ false
    → Balanced r c b bs
other-Balanced r true b bs h k =
    rw (space_byte-other r b h k) (omega (arith, line_breaks-cr b bs h, line_breaks-other b bs h k))
other-Balanced r false b bs h k =
    rw (space_byte-other r b h k) (omega (arith, line_breaks-other b bs h k))

byte-Balanced : (r : Run) (b : ℕ) (bs : Bytes) → Balanced r r.after_cr b bs
byte-Balanced r b bs = elim (Bool-cases (b == b'\n')) [
  | inl lf ↦
      let same = (==_iff b b'\n').0 lf in
      subst (λ (x : ℕ). Balanced r r.after_cr x bs) (sym same) (lf-Balanced r r.after_cr bs refl)
  | inr no_lf ↦ elim (Bool-cases (b == b'\r')) [
    | inl cr ↦
        let same = (==_iff b b'\r').0 cr in
        subst (λ (x : ℕ). Balanced r r.after_cr x bs) (sym same) (cr-Balanced r r.after_cr bs refl)
    | inr no_cr ↦ other-Balanced r r.after_cr b bs no_lf no_cr
  ]
]

fold_spaces-cons :
    (r : Run) (b : ℕ) (ws : Bytes)
    → is_space b ≡ true
    → fold_spaces r (b ∷ ws) ≡ fold_spaces (space_byte r b) ws
unfolding fold_spaces
fold_spaces-cons r b ws h = rw h refl

fold_spaces-nil : (r : Run) → fold_spaces r [] ≡ r
unfolding fold_spaces
fold_spaces-nil r = refl

abbrev pub Spaces : Bytes → Type 0
Spaces ws = All (λ b. is_space b ≡ true) ws

-- The bytes do not go on with whitespace.
abbrev pub NoSpace : Bytes → Type 0
NoSpace [] = Unit {0}
NoSpace (b ∷ bs) = is_space b ≡ false

fold_spaces-lines :
    (ws : Bytes) (r : Run)
    → Spaces ws
    → (fold_spaces r ws).line + carry r.after_cr ≡ r.line + line_breaks (pending r.after_cr ws)
fold_spaces-lines [] r h = rw (fold_spaces-nil r) (no_more r.line r.after_cr)
  where
    no_more : (n : ℕ) (c : Bool) → n + carry c ≡ n + line_breaks (pending c [])
    no_more n true = unfold line_breaks in refl
    no_more n false = unfold line_breaks in refl
fold_spaces-lines (b ∷ ws) r (h, hs) = omega (
  arith,
  ap (λ (x : Run). x.line) (fold_spaces-cons r b ws h),
  fold_spaces-lines ws (space_byte r b) hs,
  byte-Balanced r b ws,
)

fold_spaces-p : (ws : Bytes) (r : Run) → Spaces ws → (fold_spaces r ws).p ≡ r.p + length ws
fold_spaces-p [] r h = ap (λ (x : Run). x.p) (fold_spaces-nil r) ∙ omega arith
fold_spaces-p (b ∷ ws) r (h, hs) = omega (
  arith,
  ap (λ (x : Run). x.p) (fold_spaces-cons r b ws h),
  fold_spaces-p ws (space_byte r b) hs,
  space_byte-p r b,
)

column_step :
    (r : Run) (b : ℕ) (ws : Bytes)
    → column_after (space_byte r b).column ws ≡ column_after r.column (b ∷ ws)
unfolding column_after space_byte
column_step r b ws = ground arith

fold_spaces-column :
    (ws : Bytes) (r : Run) → Spaces ws → (fold_spaces r ws).column ≡ column_after r.column ws
fold_spaces-column [] r h = ap (λ (x : Run). x.column) (fold_spaces-nil r) ∙ column_nil r.column
  where
    column_nil : (c : ℕ) → c ≡ column_after c []
    column_nil c = unfold column_after in refl
fold_spaces-column (b ∷ ws) r (h, hs) =
    ap (λ (x : Run). x.column) (fold_spaces-cons r b ws h)
    ∙ fold_spaces-column ws (space_byte r b) hs
    ∙ column_step r b ws

-- Whether the last byte of whitespace is a CR, the flag so far where there is none.
unfoldable pub ends_in_cr : Bool → Bytes → Bool
ends_in_cr cr [] = cr
ends_in_cr cr (b ∷ ws) = ends_in_cr (b == b'\r') ws

cr_nil : (r : Run) → r.after_cr ≡ ends_in_cr r.after_cr []
unfolding ends_in_cr
cr_nil r = refl

cr_step :
    (r : Run) (b : ℕ) (ws : Bytes)
    → ends_in_cr (space_byte r b).after_cr ws ≡ ends_in_cr r.after_cr (b ∷ ws)
unfolding ends_in_cr space_byte
cr_step r b ws = ground arith

fold_spaces-cr :
    (ws : Bytes) (r : Run) → Spaces ws → (fold_spaces r ws).after_cr ≡ ends_in_cr r.after_cr ws
fold_spaces-cr [] r h = ap (λ (x : Run). x.after_cr) (fold_spaces-nil r) ∙ cr_nil r
fold_spaces-cr (b ∷ ws) r (h, hs) =
    ap (λ (x : Run). x.after_cr) (fold_spaces-cons r b ws h)
    ∙ fold_spaces-cr ws (space_byte r b) hs
    ∙ cr_step r b ws

fold_spaces-stop :
    (ws rest : Bytes) (r : Run)
    → Spaces ws
    → NoSpace rest
    → fold_spaces r (ws ++ rest) ≡ fold_spaces r ws
unfolding fold_spaces
fold_spaces-stop [] [] r h stop = refl
fold_spaces-stop [] (b ∷ rest) r h stop = rw stop refl
fold_spaces-stop (b ∷ ws) rest r (h, hs) stop =
    rw h (fold_spaces-stop ws rest (space_byte r b) hs stop)

module _ {F H : Type 0} where
  -- Where whitespace `ws`, up to a byte that is none or the end of the bytes received, takes the position,
  -- however the ring splits it into spans and if the handler wants no whitespace: all of it and no more is
  -- consumed, the line goes on by the line breaks in it (CR LF, a lone CR and a lone LF being one each, and
  -- a CR that an earlier call took counting together with a LF at the front), and the column is counted
  -- from the last of them. Whether the last byte taken is a CR is kept for the next call.
  pub process_whitespace-line_breaks :
      (env : Env F H) (m : Machine H) (pre ws rest : Bytes)
      → IsView env.input (pre ++ (ws ++ rest))
      → Spaces ws
      → NoSpace rest
      → m.consumed ≡ length pre
      → m.tok.needs_whitespace ≡ false
      → ((process_whitespace env m).0 ≡ ok tt)
        × ((process_whitespace env m).1.consumed ≡ length pre + length ws)
        × ((process_whitespace env m).1.locator.line + carry m.tok.after_cr
            ≡ m.locator.line + line_breaks (pending m.tok.after_cr ws))
        × ((process_whitespace env m).1.locator.column ≡ column_after m.locator.column ws)
        × ((process_whitespace env m).1.tok.after_cr ≡ ends_in_cr m.tok.after_cr ws)
  unfolding process_whitespace
  process_whitespace-line_breaks env m pre ws rest view spaces stop at quiet =
      let r : Run = record {
        line = m.locator.line;
        column = m.locator.column;
        after_cr = m.tok.after_cr;
        p = m.consumed;
      } in
      let run : space_loop (env.input.len - m.consumed) env.input r ≡ fold_spaces r ws =
        space_loop-fold_spaces view (env.input.len - m.consumed) r (omega (arith, view.len_eq))
        ∙ ap (λ (k : ℕ). fold_spaces r (drop k (pre ++ (ws ++ rest)))) at
        ∙ ap (fold_spaces r) (drop-append_length pre (ws ++ rest))
        ∙ fold_spaces-stop ws rest r spaces stop in
      rw (run, quiet)
        (
          refl,
          fold_spaces-p ws r spaces ∙ ap (λ (k : ℕ). k + length ws) at,
          fold_spaces-lines ws r spaces,
          fold_spaces-column ws r spaces,
          fold_spaces-cr ws r spaces,
        )

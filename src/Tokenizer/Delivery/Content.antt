-- ===== src/Tokenizer/Delivery/Content.antt =====
-- The content of a string, of `continue_string` in src/tokenizer.rs: what a handler that listens hears is the
-- text of the bytes consumed.
use rjsonparser.Prelude.{
  ℕ, zero, suc, ◌+◌, ◌-◌, ◌≤◌, ◌<◌, ◌≡◌, refl, sym, ap, ◌∙◌, Bool, true, false, not, chosen, Option,
  none, some, [], ◌++◌, append_assoc, append-nil, Bytes, ltb, ◌==◌, ==_iff, length, if◌then◌else◌,
  arith,
}
use mathlib.Core.Path.{subst}
use rjsonparser.Error.{Result, ok, err, new_number}
use rjsonparser.Exec.{continue, fail_if}
use rjsonparser.Handler.{end_string_value}
use rjsonparser.Locator.{add_column}
use rjsonparser.Loopbuf.{IsView}
use rjsonparser.Text.{len_utf8, encode_utf8}
use rjsonparser.Tokenizer.Escapes.{resolve_escape}
use rjsonparser.Tokenizer.Machine.{
  Machine, M, Env, report, free, when, check_limit, flush_chars, ensure_chars, after_value,
}
use rjsonparser.Tokenizer.Strings.{
  make_room, ends_run, scan_plain, plain_run, close_string, wait, escape_char, after_run,
  string_loop, continue_string,
}
use rjsonparser.Tokenizer.Delivery.{
  IsListening, text, Flushed, flush_chars-Flushed, listening-MakesRoom, Quiet, make_room,
}
use rjsonparser.Tokenizer.Delivery.Meaning.{IsText, no_text, escaped, piece-IsText}
use rjsonparser.Tokenizer.Delivery.Pieces.{Told, plain_run-Told}
use rjsonparser.Tokenizer.Delivery.Runs.{piece}
use rjsonparser.Tokenizer.Reach.{flush_chars-Keeps}
use rjsonparser.Tokenizer.Reach.Contents.{resolve_escape-size}
use rjsonparser.Tokenizer.Reach.Decoding.{scan_plain-Ends}
use rjsonparser.Tokenizer.Reach.Scan.{scan_plain-plain}
use rjsonparser.Tokenizer.Reach.Text.{taken}

module _ {F H : Type 0} (env : Env F H) (heard : H → Bytes) (listens : IsListening env.on heard)
    {bs : Bytes} (view : IsView env.input bs) where
  abbrev so_far : Machine H → Bytes
  so_far m = text heard m

  -- What the call has told the handler, on top of what was said: the text from a position up to the closing
  -- quote, which is consumed, or up to the position that the call leaves.
  abbrev pub Tells : Bytes → ℕ → Result Bool × Machine H → Type 0
  Tells said from (ok closed, m) =
      (j : ℕ) × ((t : Bytes) × (IsText env.input from j t
          × ((heard m.handler ≡ said ++ t)
              × ((m.tok.chars ≡ [])
                  × (if closed
                      then ((env.input.at j ≡ b'"') × (m.consumed ≡ j + 1))
                      else (m.consumed ≡ j))))))
  Tells said from (err e, m) = Unit {0}

  from_Tells :
      (said w : Bytes) (from q : ℕ) (r : Result Bool × Machine H)
      → Tells (said ++ w) q r
      → ((j : ℕ) (t : Bytes) → IsText env.input q j t → IsText env.input from j (w ++ t))
      → Tells said from r
  from_Tells said w from q (ok closed, m) (j, (t, (is, (e, rest)))) longer =
      (j, (w ++ t, (longer j t is, (e ∙ append_assoc said w t, rest))))
  from_Tells said w from q (err x, m) tells longer = tt

  -- Waiting for more bytes, with all the text told.
  wait-Tells :
      (said : Bytes) (from q : ℕ) (t : Bytes) (m : Machine H)
      → m.consumed ≡ q
      → so_far m ≡ said ++ t
      → IsText env.input from q t
      → Tells said from (wait env m)
  unfolding wait
  wait-Tells said from q t m at quiet is =
      flushed (flush_chars env.on m) (flush_chars-Flushed env.on heard listens m)
        ((flush_chars-Keeps env.on).same m ∙ at)
    where
      flushed :
          (r : Result (Unit {0}) × Machine H)
          → Flushed heard (so_far m) r
          → r.1.consumed ≡ q
          → Tells said from (continue r (λ _ x. (ok false, x)))
      flushed (ok u, x) (e, none_left) there = (q, (t, (is, (e ∙ quiet, (none_left, there)))))
      flushed (err e, x) f there = tt

  close_string-Tells :
      (said : Bytes) (from q : ℕ) (t : Bytes) (m : Machine H)
      → so_far m ≡ said ++ t
      → IsText env.input from q t
      → env.input.at q ≡ b'"'
      → Tells said from (close_string env q m)
  unfolding close_string
  close_string-Tells said from q t m quiet is quote =
      flushed (flush_chars env.on m) (flush_chars-Flushed env.on heard listens m)
    where
      ended : (x : Machine H) → Machine H
      ended x = record x {
        consumed = q + 1;
        locator = add_column x.locator 1;
        tok = record x.tok { in_string = false; state = after_value };
      }

      reported :
          (x : Machine H)
          → heard x.handler ≡ said ++ t
          → x.tok.chars ≡ []
          → (r : Result (Unit {0})) (h : H) → (r ≡ ok tt → heard h ≡ heard x.handler ++ [])
          → Tells said from (continue (r, record (ended x) { handler = h }) (λ _ y. (ok true, y)))
      reported x e none_left (ok u) h hears = (
        q,
        (t, (is, (hears refl ∙ append-nil (heard x.handler) ∙ e, (none_left, (quote, refl))))),
      )
      reported x e none_left (err y) h hears = tt

      flushed :
          (r : Result (Unit {0}) × Machine H)
          → Flushed heard (so_far m) r
          → Tells said from (
              continue r
                (λ _ x. continue (report env.on end_string_value (ended x)) (λ _ y. (ok true, y))))
      flushed (ok u, x) (e, none_left) =
          reported x (e ∙ quiet) none_left
            (env.on.report end_string_value (ended x).locator x.handler).0
            (env.on.report end_string_value (ended x).locator x.handler).1
            (listens.hears end_string_value (ended x).locator x.handler)
      flushed (err e, x) f = tt

  -- What follows goes on from behind a position.
  abbrev Onward : M H Bool → ℕ → Type 0
  Onward next end =
      (x : Machine H)
      → end < x.consumed
      → x.consumed ≤ env.input.len
      → Tells (so_far x) x.consumed (next x)

  -- Text in front of any text that follows.
  abbrev Leads : ℕ → ℕ → Bytes → Type 0
  Leads from q t =
      (j : ℕ) (more : Bytes) → IsText env.input q j more → IsText env.input from j (t ++ more)

  leads-IsText : (from q : ℕ) (t : Bytes) → Leads from q t → IsText env.input from q t
  leads-IsText from q t leads = subst (IsText env.input from q) (append-nil t) (leads q [] no_text)

  limited-Tells :
      (said : Bytes) (from : ℕ) (limit : Option ℕ) (n : ℕ) (m : Machine H) (f : Unit {0} → M H Bool)
      → Tells said from (f tt m)
      → Tells said from (continue (check_limit limit n "Maximum string length exceeded: " m) f)
  limited-Tells said from none n m f tells = tells
  limited-Tells said from (some limit) n m f tells = either (ltb limit n)
    where
      either :
          (b : Bool)
          → Tells said from
              (continue (fail_if b (new_number "Maximum string length exceeded: " limit) m) f)
      either true = tt
      either false = tells

  Quiet-Tells :
      (said so : Bytes) (from : ℕ) (r : Result (Unit {0}) × Machine H) (f : Unit {0} → M H Bool)
      → Quiet heard so r
      → ((x : Machine H) → so_far x ≡ so → Tells said from (f tt x))
      → Tells said from (continue r f)
  Quiet-Tells said so from (ok u, x) f quiet go = go x quiet
  Quiet-Tells said so from (err e, x) f quiet go = tt

  escape-Tells :
      (next : M H Bool) (said : Bytes) (from end : ℕ) (t : Bytes) (m : Machine H)
      → m.consumed ≡ end
      → so_far m ≡ said ++ t
      → Leads from end t
      → env.input.at end ≡ b'\\'
      → Onward next end
      → (r : Result (Option (ℕ × ℕ))) → resolve_escape env.input end ≡ r
      → Tells said from (continue (r, m) (escape_char next env end))
  unfolding escape_char make_room
  escape-Tells next said from end t m at quiet leads backslash go (err x) r = tt
  escape-Tells next said from end t m at quiet leads backslash go (ok none) r =
      wait-Tells said from end t m at quiet (leads-IsText from end t leads)
  escape-Tells next said from end t m at quiet leads backslash go (ok (some (ch, n))) r =
      let size = resolve_escape-size view end ch n r in
      Quiet-Tells said (so_far m) from
        (when (ltb (free m.tok) (len_utf8 ch)) (flush_chars env.on) m) _
        (listening-MakesRoom env.on heard listens (ltb (free m.tok) (len_utf8 ch)) m)
        (λ x kept.
          let y = taken env x ch n end in
          let now : so_far y ≡ said ++ (t ++ encode_utf8 ch) =
            sym (append_assoc (heard x.handler) x.tok.chars (encode_utf8 ch))
            ∙ ap (λ (w : Bytes). w ++ encode_utf8 ch) (kept ∙ quiet)
            ∙ append_assoc said t (encode_utf8 ch) in
          limited-Tells said from env.limits.max_string_length y.tok.string_bytes y _ (
            from_Tells said (t ++ encode_utf8 ch) from (end + n) (next y)
              (subst (λ (w : Bytes). Tells w (end + n) (next y)) now
                (go y (omega (arith, size)) (omega (arith, size, view.len_eq))))
              (λ j more is.
                subst (IsText env.input from j) (sym (append_assoc t (encode_utf8 ch) more))
                  (leads j (encode_utf8 ch ++ more) (escaped backslash r is)))))

  after_run-Tells :
      (next : M H Bool) (said : Bytes) (from end : ℕ) (t : Bytes) (m : Machine H)
      → m.consumed ≡ end
      → so_far m ≡ said ++ t
      → Leads from end t
      → Onward next end
      → Tells said from (after_run next env end m)
  unfolding after_run
  after_run-Tells next said from end t m at quiet leads go =
      let P = λ (a : M H Bool). Tells said from (a m) in
      chosen (end == env.input.len) P _ _
        (λ _. wait-Tells said from end t m at quiet (leads-IsText from end t leads))
        (λ _.
          chosen (env.input.at end == b'"') P _ _
            (λ quote.
              close_string-Tells said from end t m quiet (leads-IsText from end t leads)
                ((==_iff (env.input.at end) b'"').0 quote))
            (λ _.
              chosen (not (env.input.at end == b'\\')) P _ _ (λ _. tt)
                (λ escape.
                  escape-Tells next said from end t m at quiet leads (ground (arith, escape)) go
                    (resolve_escape env.input end) refl)))

  Told-Tells :
      (said : Bytes) (from end : ℕ)
      → ((i : ℕ) → from ≤ i → i < end → ends_run (env.input.at i) ≡ false)
      → end ≤ env.input.len
      → (r : Result Bool × Machine H) → Told heard bs said from end r
      → (next : M H Bool) → Onward next end
      → Tells said from (continue r (λ cut. if cut then wait env else after_run next env end))
  Told-Tells said from end plain fits (err e, x) told next go = tt
  Told-Tells said from end plain fits (ok true, x) (low, (high, (whole, quiet))) next go =
      let is =
        piece-IsText view from x.consumed x.consumed [] low (omega (arith, high, fits, view.len_eq))
          (λ i a b. plain i a (omega (arith, b, high))) no_text in
      wait-Tells said from x.consumed (piece bs from x.consumed) x refl quiet
        (subst (IsText env.input from x.consumed) (append-nil (piece bs from x.consumed)) is)
  Told-Tells said from end plain fits (ok false, x) (low, (high, (whole, quiet))) next go =
      let there = whole refl in
      after_run-Tells next said from end (piece bs from end) x there
        (quiet ∙ ap (λ (q : ℕ). said ++ piece bs from q) there)
        (λ j more is.
          piece-IsText view from end j more (omega (arith, low, high))
            (omega (arith, fits, view.len_eq)) plain is)
        go

  string_loop-Tells :
      (fuel : ℕ) (m : Machine H)
      → m.consumed ≤ env.input.len
      → env.input.len - m.consumed < fuel
      → Tells (so_far m) m.consumed (string_loop fuel env m)
  unfolding string_loop
  string_loop-Tells zero m le h = absurd (omega (arith, h))
  string_loop-Tells (suc fuel) m le h =
      let from = m.consumed in
      let end = scan_plain env.input from env.input.len in
      let fits : env.input.len ≤ length bs = omega (arith, view.len_eq) in
      let ends = scan_plain-Ends view from env.input.len le fits (λ q. absurd (omega (arith, q))) in
      let plain = λ (i : ℕ) (low : from ≤ i) (high : i < end).
        scan_plain-plain view from env.input.len i le fits low high in
      Told-Tells (so_far m) from end plain ends.1.0 (plain_run env from end m)
        (plain_run-Told env heard listens view from end m refl ends.0 (omega (arith, ends, fits))
          ends.1.1)
        (string_loop fuel env)
        (λ x lt le'. string_loop-Tells fuel x le' (omega (arith, lt, h, le', ends)))

  -- With nothing waiting, a call that succeeds has told a handler that listens the text of the bytes from where
  -- it started up to the closing quote, which it has consumed, or up to where it stands, with nothing waiting:
  -- every character once and in order, however the text is cut into calls of the handler, however the ring splits
  -- the bytes and whatever the string chunk size is.
  pub continue_string-Tells :
      (m : Machine H)
      → m.consumed ≤ env.input.len
      → m.tok.chars ≡ []
      → Tells (heard m.handler) m.consumed (continue_string env m)
  unfolding continue_string ensure_chars
  continue_string-Tells m le none_left =
      let x = record m {
        tok =
            if not (m.tok.chars_cap == m.tok.chunk_size)
            then record m.tok { chars = []; chars_cap = m.tok.chunk_size }
            else m.tok;
      } in
      let empty : x.tok.chars ≡ [] = ground (arith, none_left) in
      let quiet : so_far x ≡ heard m.handler =
        ap (λ (w : Bytes). heard m.handler ++ w) empty ∙ append-nil (heard m.handler) in
      subst (λ (w : Bytes). Tells w m.consumed (string_loop (env.input.len - m.consumed + 1) env x))
        quiet (string_loop-Tells (env.input.len - m.consumed + 1) x le (omega arith))

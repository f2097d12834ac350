-- ===== src/Tokenizer/Reach/Text.antt =====
-- How far string content, `continue_string` of src/tokenizer.rs, is consumed, and that the rounds of its
-- loop are enough.
use rjsonparser.Prelude.{
  ℕ, zero, suc, ◌+◌, ◌-◌, ◌≤◌, ◌<◌, ◌≡◌, ◌≢◌, refl, ap, ◌∙◌, inl, inr, Bool, true, false,
  Bool-cases, Option, none, some, ◌++◌, Bytes, ltb, ◌==◌, if◌then◌else◌, arith,
}
use rjsonparser.Error.{Result, ok, err}
use rjsonparser.Exec.{continue}
use rjsonparser.Loopbuf.{IsView}
use rjsonparser.Locator.{add_column}
use rjsonparser.Text.{len_utf8, encode_utf8}
use rjsonparser.Tokenizer.Escapes.{resolve_escape}
use rjsonparser.Tokenizer.Machine.{
  Machine, M, Env, when, free, check_limit, flush_chars, ensure_chars,
}
use rjsonparser.Tokenizer.Strings.{
  scan_plain, decode_run, plain_run, close_string, wait, escape_char, after_run, string_loop,
  continue_string,
}
use rjsonparser.Tokenizer.Reach.{
  Lands, Went, continue-Lands, keep-Lands, from_Went, flush_chars-Keeps, ensure_chars-Keeps,
  check_limit-Keeps,
}
use rjsonparser.Tokenizer.Reach.Contents.{resolve_escape-size}
use rjsonparser.Tokenizer.Reach.Decoding.{Stops, Decoded, decode_run-Decoded, scan_plain-Ends}

waits :
    {H : Type 0} {len from at : ℕ} (r : Result Bool × Machine H)
    → r.1.consumed ≡ at
    → from ≤ at
    → at ≤ len
    → r.0 ≢ ok true
    → Lands from len (Went len from) r
waits (ok true, m) e le le' never = absurd (never refl)
waits (ok false, m) e le le' never = (omega (arith, e, le), omega (arith, e, le'))
waits (err x, m) e le le' never = (omega (arith, e, le), omega (arith, e, le'))

module _ {F H : Type 0} (env : Env F H) where
  -- A plain run is taken whole, unless the bytes end in the middle of a character.
  abbrev pub Ran : ℕ → ℕ → Bool → ℕ → Type 0
  Ran from end cut at = (from ≤ at) × ((at ≤ end) × (cut ≡ false → at ≡ end))

  Decoded-Lands :
      (len c from end : ℕ)
      → from ≤ c
      → c ≤ len
      → (r : Result (ℕ × ℕ) × Machine H) → Decoded c from end r
      → Lands from len (λ reached at. (from ≤ reached.0) × (reached.0 ≤ end)) r
  Decoded-Lands len c from end low le (ok (q, u), m) d = d.1
  Decoded-Lands len c from end low le (err x, m) d = (omega (arith, d, low), omega (arith, d, le))

  pub plain_run-Ran :
      (from end : ℕ) (m : Machine H)
      → m.consumed ≡ from
      → from ≤ end
      → end ≤ env.input.len
      → Stops env.input end
      → Lands from env.input.len (Ran from end) (plain_run env from end m)
  unfolding plain_run
  plain_run-Ran from end m e le le' stop = elim (Bool-cases (ltb from end)) [
    | inr none_there ↦
        rw none_there
          (omega (arith, e), (omega (arith, e, le), λ c. ground (arith, none_there, le, e)))
    | inl more ↦ rw more (
        keep-Lands from env.input.len from (Ran from end)
          (check_limit env.limits.max_string_length (m.tok.string_bytes + (end - from))
            "Maximum string length exceeded: " m)
          _ (omega arith) (omega (arith, le, le'))
          ((check_limit-Keeps env.limits.max_string_length (m.tok.string_bytes + (end - from))
                "Maximum string length exceeded: ").same
              m
            ∙ e)
          (λ u x e'.
            continue-Lands from env.input.len (λ reached at. (from ≤ reached.0) × (reached.0 ≤ end))
              (Ran from end) (decode_run (some env.on) env.input from end x) _
              (Decoded-Lands env.input.len x.consumed from end (omega (arith, e'))
                (omega (arith, e', le, le')) _
                (decode_run-Decoded (some env.on) env.input from end x stop le))
              (λ reached y h. (h.0, (h.1, λ c. ground (arith, c, h))))))
  ]

  wait-consumed : (m : Machine H) → (wait env m).1.consumed ≡ m.consumed
  unfolding wait
  wait-consumed m = grind (arith, (flush_chars-Keeps env.on).same m)

  wait-false : (m : Machine H) → (wait env m).0 ≢ ok true
  unfolding wait
  wait-false m = ground arith

  close_string-Lands :
      (from end : ℕ) (m : Machine H)
      → m.consumed ≡ end
      → from ≤ end
      → end < env.input.len
      → Lands from env.input.len (Went env.input.len from) (close_string env end m)
  unfolding close_string
  close_string-Lands from end m e le h = grind (arith, (flush_chars-Keeps env.on).same m, h, le, e)

  flushed-consumed :
      (b : Bool) (m : Machine H) → (when b (flush_chars env.on) m).1.consumed ≡ m.consumed
  flushed-consumed true m = (flush_chars-Keeps env.on).same m
  flushed-consumed false m = refl

  -- The machine behind an escape.
  abbrev pub taken : Machine H → ℕ → ℕ → ℕ → Machine H
  taken x ch n end = record x {
    consumed = end + n;
    tok = record x.tok {
      chars = x.tok.chars ++ encode_utf8 ch;
      string_bytes = x.tok.string_bytes + n;
    };
    locator = add_column x.locator n;
  }

  escape_char-Lands :
      (next : M H Bool) (from end : ℕ) (cut : Option (ℕ × ℕ)) (m : Machine H)
      → m.consumed ≡ end
      → from ≤ end
      → end ≤ env.input.len
      → ((ch n : ℕ) → cut ≡ some (ch, n) → end + n ≤ env.input.len)
      → ((x : Machine H) (ch n : ℕ)
          → cut ≡ some (ch, n)
          → x.consumed ≡ end + n
          → Lands from env.input.len (Went env.input.len from) (next x))
      → Lands from env.input.len (Went env.input.len from) (escape_char next env end cut m)
  unfolding escape_char
  escape_char-Lands next from end none m e le le' fits go =
      grind (arith, wait-consumed m, e, le, le')
  escape_char-Lands next from end (some (ch, n)) m e le le' fits go =
      keep-Lands from env.input.len end (Went env.input.len from)
        (when (ltb (free m.tok) (len_utf8 ch)) (flush_chars env.on) m) _ le le'
        (flushed-consumed (ltb (free m.tok) (len_utf8 ch)) m ∙ e)
        (λ u x e'.
          let y = taken x ch n end in
          keep-Lands from env.input.len (end + n) (Went env.input.len from)
            (check_limit env.limits.max_string_length y.tok.string_bytes
              "Maximum string length exceeded: " y)
            _ (omega (arith, le)) (fits ch n refl)
            ((check_limit-Keeps env.limits.max_string_length y.tok.string_bytes
                "Maximum string length exceeded: ").same
              y)
            (λ v z e2. go z ch n refl e2))

  -- What follows goes on from behind the escape.
  abbrev Onward : M H Bool → ℕ → ℕ → Type 0
  Onward next from end =
      (x : Machine H)
      → end < x.consumed
      → x.consumed ≤ env.input.len
      → Lands from env.input.len (Went env.input.len from) (next x)

  escape-Lands :
      {bs : Bytes}
      → IsView env.input bs
      → (next : M H Bool) (from end : ℕ) (m : Machine H) → m.consumed ≡ end
      → from ≤ end
      → end ≤ env.input.len
      → Onward next from end
      → (r : Result (Option (ℕ × ℕ))) → resolve_escape env.input end ≡ r
      → Lands from env.input.len
          (Went env.input.len from)
          (continue (r, m) (escape_char next env end))
  escape-Lands view next from end m e le le' go (err x) r =
      (omega (arith, e, le), omega (arith, e, le'))
  escape-Lands {bs} view next from end m e le le' go (ok cut) r =
      let size = λ (ch n : ℕ) (here : cut ≡ some (ch, n)).
        resolve_escape-size view end ch n (r ∙ ap ok here) in
      escape_char-Lands next from end cut m e le le'
        (λ ch n here. omega (arith, size ch n here, view.len_eq))
        (λ x ch n here e'.
          go x (omega (arith, size ch n here, e')) (omega (arith, size ch n here, e', view.len_eq)))

  after_run-Lands :
      {bs : Bytes}
      → IsView env.input bs
      → (next : M H Bool) (from end : ℕ) (m : Machine H) → m.consumed ≡ end
      → from ≤ end
      → end ≤ env.input.len
      → Onward next from end
      → Lands from env.input.len (Went env.input.len from) (after_run next env end m)
  unfolding after_run
  after_run-Lands view next from end m e le le' go = elim (Bool-cases (end == env.input.len)) [
    | inl over ↦ rw over (waits (wait env m) (wait-consumed m ∙ e) le le' (wait-false m))
    | inr more ↦ elim (Bool-cases (env.input.at end == b'"')) [
      | inl quote ↦
          rw (more, quote) (close_string-Lands from end m e le (ground (arith, more, le')))
      | inr no_quote ↦ elim (Bool-cases (env.input.at end == b'\\')) [
        | inr bad ↦ rw (more, no_quote, bad) (omega (arith, e, le), omega (arith, e, le'))
        | inl escape ↦
            rw (more, no_quote, escape)
              (escape-Lands view next from end m e le le' go (resolve_escape env.input end) refl)
      ]
    ]
  ]

  behind_run :
      {bs : Bytes}
      → IsView env.input bs
      → (next : M H Bool) (from end : ℕ) (cut : Bool) (x : Machine H) → end ≤ env.input.len
      → Ran from end cut x.consumed
      → Onward next from end
      → Lands from env.input.len
          (Went env.input.len from)
          ((if cut then wait env else after_run next env end) x)
  behind_run view next from end true x le ran go =
      waits (wait env x) (wait-consumed x) ran.0 (omega (arith, ran.1.0, le)) (wait-false x)
  behind_run view next from end false x le ran go =
      after_run-Lands view next from end x (ran.1.1 refl) (omega (arith, ran.0, ran.1.0)) le go

  pub string_loop-Lands :
      {bs : Bytes}
      → IsView env.input bs
      → (fuel : ℕ) (m : Machine H) → m.consumed ≤ env.input.len
      → Lands m.consumed env.input.len (Went env.input.len m.consumed) (string_loop fuel env m)
  unfolding string_loop
  string_loop-Lands view zero m le = (omega arith, le)
  string_loop-Lands view (suc fuel) m le =
      let from = m.consumed in
      let end = scan_plain env.input from env.input.len in
      let ends =
        scan_plain-Ends view from env.input.len le (omega (arith, view.len_eq))
          (λ h. absurd (omega (arith, h))) in
      continue-Lands from env.input.len (Ran from end) (Went env.input.len from)
        (plain_run env from end m) _ (plain_run-Ran from end m refl ends.0 ends.1.0 ends.1.1)
        (λ cut x ran. behind_run view (string_loop fuel env) from end cut x ends.1.0 ran (λ y h h'.
          from_Went env.input.len from y.consumed (omega (arith, ends.0, h)) _
            (string_loop-Lands view fuel y h')))

  pub continue_string-Lands :
      {bs : Bytes}
      → IsView env.input bs
      → (m : Machine H) → m.consumed ≤ env.input.len
      → Lands m.consumed env.input.len (Went env.input.len m.consumed) (continue_string env m)
  unfolding continue_string
  continue_string-Lands view m le =
      keep-Lands m.consumed env.input.len m.consumed (Went env.input.len m.consumed)
        (ensure_chars m) _ (omega arith) le (ensure_chars-Keeps.same m)
        (λ u x e.
          from_Went env.input.len m.consumed x.consumed (omega (arith, e)) _
            (string_loop-Lands view (env.input.len - x.consumed + 1) x (omega (arith, e, le))))

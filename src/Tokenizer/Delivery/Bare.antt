-- ===== src/Tokenizer/Delivery/Bare.antt =====
-- What decoding a key, `decode_key` in src/tokenizer.rs, leaves as it was: all but the characters.
use rjsonparser.Prelude.{
  ℕ, zero, suc, ◌+◌, ◌≡◌, refl, ◌∙◌, Bool, true, false, Bool-cases, inl, inr, chosen, Option, none,
  some, [], ◌++◌, Bytes, ltb, leb, take, if◌then◌else◌,
}
use rjsonparser.Error.{ParseError, new, Result, ok, err}
use rjsonparser.Exec.{continue, fail_if, pure, lift, ◌>>=◌}
use rjsonparser.Loopbuf.{Spans}
use rjsonparser.Text.{len_utf8, Utf8Check, all_valid, stops_at}
use rjsonparser.Tokenizer.Escapes.{resolve_escape}
use rjsonparser.Tokenizer.Machine.{Machine, M, free, when}
use rjsonparser.Tokenizer.ObjectKeys.{key_run, key_escape, decode_key_loop, decode_key}
use rjsonparser.Tokenizer.Strings.{
  make_room, cut_char, decode_slice, slice_at, low_water, decode_loop, decode_run, decode_char_at,
  malformed_utf8, scan_plain,
}
use rjsonparser.Text.{utf8_check}

module _ {H : Type 0} where
  -- The machine without its characters.
  abbrev pub bare : Machine H → Machine H
  bare m = record m { tok = record m.tok { chars = [] } }

  -- An action that changes the characters only.
  abbrev pub Bare : {A : Type 0} → Machine H → Result A × Machine H → Type 0
  Bare m r = bare r.1 ≡ bare m

  continue-Bare :
      {A B : Type 0} (m : Machine H) (r : Result A × Machine H) (f : A → M H B)
      → Bare m r
      → ((a : A) (x : Machine H) → Bare x (f a x))
      → Bare m (continue r f)
  continue-Bare m (ok a, x) f e go = go a x ∙ e
  continue-Bare m (err y, x) f e go = e

  room-Bare : (b : Bool) (m : Machine H) → Bare m (when b (make_room {F = Unit {0}} none) m)
  unfolding make_room
  room-Bare true m = refl
  room-Bare false m = refl

  fail_if-Bare : (b : Bool) (e : ParseError) (m : Machine H) → Bare m (fail_if b e m)
  fail_if-Bare true e m = refl
  fail_if-Bare false e m = refl

  lift-Bare :
      {A B : Type 0} (r : Result A) (f : A → M H B) (m : Machine H)
      → ((a : A) (x : Machine H) → Bare x (f a x))
      → Bare m (continue (r, m) f)
  lift-Bare r f m go = continue-Bare m (r, m) f refl go

  abbrev Keeping : (ℕ → ℕ → M H (ℕ × ℕ)) → Type 0
  Keeping next = (p u : ℕ) (x : Machine H) → Bare x (next p u x)

  cut_char-Bare :
      (next : ℕ → ℕ → M H (ℕ × ℕ))
      → Keeping next
      → (p u : ℕ) (cut : Option (ℕ × ℕ)) (m : Machine H)
      → Bare m (cut_char {F = Unit {0}} next none p u cut m)
  cut_char-Bare next go p u none m = refl
  cut_char-Bare next go p u (some (ch, n)) m =
      continue-Bare m (when (ltb (free m.tok) (len_utf8 ch)) (make_room none) m) _
        (room-Bare (ltb (free m.tok) (len_utf8 ch)) m) (λ _ x. go _ _ _)

  decode_slice-Bare :
      (next : ℕ → ℕ → M H (ℕ × ℕ))
      → Keeping next
      → (input : Spans) (p u : ℕ) (slice : Bytes) (check : Utf8Check) (m : Machine H)
      → Bare m (decode_slice {F = Unit {0}} next none input p u slice check m)
  decode_slice-Bare next go input p u slice all_valid m = go _ _ _
  decode_slice-Bare next go input p u slice (stops_at valid true) m = refl
  decode_slice-Bare next go input p u slice (stops_at valid false) m =
      lift-Bare (decode_char_at input (p + valid)) _
        (record m { tok = record m.tok { chars = m.tok.chars ++ take valid slice } })
        (λ cut x. cut_char-Bare next go _ _ cut x)

  decode_loop-Bare :
      (fuel : ℕ) (input : Spans) (to p u : ℕ) (m : Machine H)
      → Bare m (decode_loop {F = Unit {0}} fuel none input to p u m)
  unfolding decode_loop
  decode_loop-Bare zero input to p u m = refl
  decode_loop-Bare (suc fuel) input to p u m =
      chosen (ltb p to) (λ (a : M H (ℕ × ℕ)). Bare m (a m)) _ _
        (λ _.
          continue-Bare m
            (when (ltb (free m.tok) (low_water {F = Unit {0}} {H = H} none))
              (make_room {F = Unit {0}} none) m)
            _ (room-Bare (ltb (free m.tok) (low_water {F = Unit {0}} {H = H} none)) m)
            (λ _ x.
              decode_slice-Bare (decode_loop fuel none input to) (decode_loop-Bare fuel input to)
                input p u (slice_at input p to x) (utf8_check (slice_at input p to x)) x))
        (λ _. refl)

  decode_run-Bare :
      (input : Spans) (from to : ℕ) (m : Machine H)
      → Bare m (decode_run {F = Unit {0}} none input from to m)
  unfolding decode_run
  decode_run-Bare input from to m = decode_loop-Bare _ input to from 0 m

  key_run-Bare :
      (input : Spans) (p run_end : ℕ) (m : Machine H) → Bare m (key_run input p run_end m)
  key_run-Bare input p run_end m =
      chosen (ltb p run_end) (λ (a : M H (ℕ × ℕ)). Bare m (a m)) _ _
        (λ _.
          continue-Bare m (decode_run {F = Unit {0}} none input p run_end m) _
            (decode_run-Bare input p run_end m)
            (λ reached x.
              continue-Bare x (fail_if (ltb reached.0 run_end) malformed_utf8 x) _
                (fail_if-Bare (ltb reached.0 run_end) malformed_utf8 x) (λ _ y. refl)))
        (λ _. refl)

  key_escape-Bare :
      (next : ℕ → ℕ → M H ℕ)
      → ((p u : ℕ) (x : Machine H) → Bare x (next p u x))
      → (p u : ℕ) (cut : Option (ℕ × ℕ)) (m : Machine H) → Bare m (key_escape next p u cut m)
  key_escape-Bare next go p u none m = refl
  key_escape-Bare next go p u (some (ch, n)) m =
      continue-Bare m
        (fail_if (ltb (free m.tok) (len_utf8 ch))
          (new "Object key is longer than the string chunk size") m)
        _
        (fail_if-Bare (ltb (free m.tok) (len_utf8 ch))
          (new "Object key is longer than the string chunk size") m)
        (λ _ x. go _ _ _)

  behind-Bare :
      (done : Bool) (u : ℕ) (r : Result (Option (ℕ × ℕ))) (f : Option (ℕ × ℕ) → M H ℕ)
      → ((cut : Option (ℕ × ℕ)) (x : Machine H) → Bare x (f cut x))
      → (x : Machine H) → Bare x ((if done then pure u else (lift r >>= f)) x)
  behind-Bare true u r f go x = refl
  behind-Bare false u r f go x = lift-Bare r f x go

  run-Bare :
      (next : ℕ → ℕ → M H ℕ)
      → ((q v : ℕ) (x : Machine H) → Bare x (next q v x))
      → (input : Spans) (end p u run_end : ℕ) (m : Machine H)
      → Bare m (
          continue (key_run input p run_end m) (λ reached.
            if leb end reached.0
            then pure (u + reached.1)
            else (lift (resolve_escape input reached.0)
                >>= key_escape next reached.0 (u + reached.1))))
  run-Bare next go input end p u run_end m =
      continue-Bare m (key_run input p run_end m) _ (key_run-Bare input p run_end m) (λ reached x.
        behind-Bare (leb end reached.0) (u + reached.1) (resolve_escape input reached.0) _
          (λ cut y. key_escape-Bare next go reached.0 (u + reached.1) cut y) x)

  decode_key_loop-Bare :
      (fuel : ℕ) (input : Spans) (end p u : ℕ) (m : Machine H)
      → Bare m (decode_key_loop fuel input end p u m)
  unfolding decode_key_loop
  decode_key_loop-Bare zero input end p u m = refl
  decode_key_loop-Bare (suc fuel) input end p u m = elim (Bool-cases (ltb p end)) [
    | inr done ↦ rw done refl
    | inl more ↦ rw more (
        run-Bare (decode_key_loop fuel input end) (decode_key_loop-Bare fuel input end) input end p
          u (scan_plain input p end) m)
  ]

  -- Decoding a key changes the characters only.
  pub decode_key-Bare :
      (input : Spans) (start end : ℕ) (m : Machine H) → Bare m (decode_key input start end m)
  unfolding decode_key
  decode_key-Bare input start end m = decode_key_loop-Bare _ input end start 0 m

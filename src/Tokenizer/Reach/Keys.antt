-- ===== src/Tokenizer/Reach/Keys.antt =====
-- How far the keys of objects, `process_key` of src/tokenizer.rs, are consumed: to the closing quote.
use rjsonparser.Prelude.{
  ℕ, zero, suc, ◌+◌, ◌-◌, ◌≤◌, ◌<◌, ◌≡◌, refl, ◌∙◌, inl, inr, List, Bool, true, false, Bool-cases,
  Option, none, some, [], ◌∷◌, Bytes, ltb, leb, if◌then◌else◌, length, arith,
}
use rjsonparser.Error.{Result, ok, err}
use rjsonparser.Exec.{continue, ◌>>=◌, lift, pure}
use rjsonparser.Handler.{ContentHandler}
use rjsonparser.Keys.{put, lookup, initial_hash}
use rjsonparser.Loopbuf.{Spans, IsView}
use rjsonparser.Tokenizer.Escapes.{resolve_escape}
use rjsonparser.Tokenizer.Machine.{Machine, M, Env, ensure_chars}
use rjsonparser.Tokenizer.ObjectKeys.{
  stored_in, stop_interning, fold_hash, KeyScan, incomplete, bad_key, closed_at, scan_key,
  insert_key, key_run, key_escape, decode_key_loop, decode_key, report_key, report_decoded, intern,
  with_bytes, closed_key, process_key,
}
use rjsonparser.Tokenizer.Strings.{scan_plain, decode_run, utf16_len}
use rjsonparser.Tokenizer.Reach.{
  Lands, continue-consumed, keep-Lands, settled, Went, ensure_chars-Keeps,
}
use rjsonparser.Tokenizer.Reach.Decoding.{Stops, Decoded, decode_run-Decoded, scan_plain-Ends}

-- The closing quote stands in the bytes.
pub scan_key-closed :
    (input : Spans) (limit : Option ℕ) (start end : ℕ) (has_escape : Bool) (fuel i : ℕ)
    (escaped : Bool)
    → scan_key fuel input limit start i escaped ≡ closed_at end has_escape
    → (i ≤ end) × ((end < input.len) × (input.at end ≡ b'"'))
unfolding scan_key
scan_key-closed input limit start end has_escape zero i escaped e = ground (arith, e)
scan_key-closed input limit start end has_escape (suc fuel) i escaped e =
    let on = scan_key-closed input limit start end has_escape fuel (i + 1) escaped in
    let over = scan_key-closed input limit start end has_escape fuel (i + 2) true in
    ground (arith, e, on, over)

module _ {H : Type 0} where
  insert_key-consumed :
      (reject : Bool) (stack : List (List Bytes)) (k : Bytes) (m : Machine H)
      → (insert_key reject stack k m).1.consumed ≡ m.consumed
  insert_key-consumed false stack k m = refl
  insert_key-consumed true [] k m = refl
  insert_key-consumed true (seen ∷ stack) k m = ground arith

  Decoded-consumed :
      (c p to : ℕ) (r : Result (ℕ × ℕ) × Machine H) → Decoded c p to r → r.1.consumed ≡ c
  Decoded-consumed c p to (ok (q, u), m) d = d.0
  Decoded-consumed c p to (err e, m) d = d

  key_run-consumed :
      (input : Spans) (p run_end : ℕ) (m : Machine H)
      → Stops input run_end
      → (key_run input p run_end m).1.consumed ≡ m.consumed
  key_run-consumed input p run_end m stop = ground (
    arith,
    λ (le : p ≤ run_end).
        Decoded-consumed m.consumed p run_end (decode_run {F = Unit {0}} none input p run_end m)
          (decode_run-Decoded none input p run_end m stop le),
  )

  key_escape-consumed :
      (next : ℕ → ℕ → M H ℕ) (p u : ℕ) (cut : Option (ℕ × ℕ)) (m : Machine H)
      → ((q v : ℕ) (x : Machine H) → (next q v x).1.consumed ≡ x.consumed)
      → (key_escape next p u cut m).1.consumed ≡ m.consumed
  key_escape-consumed next p u none m go = refl
  key_escape-consumed next p u (some (ch, n)) m go = grind (arith, go)

  behind :
      (done : Bool) (u : ℕ) (r : Result (Option (ℕ × ℕ))) (f : Option (ℕ × ℕ) → M H ℕ)
      → ((cut : Option (ℕ × ℕ)) (x : Machine H) → (f cut x).1.consumed ≡ x.consumed)
      → (x : Machine H) → ((if done then pure u else (lift r >>= f)) x).1.consumed ≡ x.consumed
  behind true u r f go x = refl
  behind false u (ok cut) f go x = go cut x
  behind false u (err e) f go x = refl

  decode_key_loop-consumed :
      {input : Spans} {bs : Bytes}
      → IsView input bs
      → (end : ℕ) → end ≤ length bs
      → Stops input end
      → (fuel p u : ℕ) (m : Machine H)
      → (decode_key_loop fuel input end p u m).1.consumed ≡ m.consumed
  unfolding decode_key_loop
  decode_key_loop-consumed view end le stop zero p u m = refl
  decode_key_loop-consumed {input} view end le stop (suc fuel) p u m =
      elim (Bool-cases (ltb p end)) [
        | inr done ↦ rw done refl
        | inl more ↦
            let ends = scan_plain-Ends view p end (ground (arith, more)) le stop in
            rw more (
              continue-consumed m.consumed (key_run input p (scan_plain input p end) m) _
                (key_run-consumed input p (scan_plain input p end) m ends.1.1)
                (λ reached m' e.
                  behind (leb end reached.0) (u + reached.1) (resolve_escape input reached.0) _
                    (λ cut x.
                      key_escape-consumed (decode_key_loop fuel input end) reached.0 (u + reached.1)
                        cut x (decode_key_loop-consumed view end le stop fuel))
                    m'
                  ∙ e))
      ]

  decode_key-consumed :
      {input : Spans} {bs : Bytes}
      → IsView input bs
      → (start end : ℕ) → end ≤ length bs
      → Stops input end
      → (m : Machine H) → (decode_key input start end m).1.consumed ≡ m.consumed
  unfolding decode_key
  decode_key-consumed view start end le stop m =
      decode_key_loop-consumed view end le stop (end - start + 1) start 0 m

module _ {F H : Type 0} where
  report_key-consumed :
      (on : ContentHandler F H) (k : Bytes) (u : ℕ) (m : Machine H)
      → (report_key on k u m).1.consumed ≡ m.consumed
  unfolding report_key
  report_key-consumed on k u m =
      grind (arith, insert_key-consumed m.tok.reject_duplicate_keys m.tok.duplicate_key_stack k m)

  report_decoded-consumed :
      (env : Env F H) (end u : ℕ) (m : Machine H)
      → (report_decoded env end u m).1.consumed ≡ end + 1
  report_decoded-consumed env end u m =
      report_key-consumed env.on m.tok.chars u (record m { consumed = end + 1 })

  -- The closing quote is consumed, and no more.
  module _ (env : Env F H) {bs : Bytes} (view : IsView env.input bs) (c start end : ℕ)
      (le : c ≤ end) (inside : end < env.input.len) (stop : Stops env.input end) where
    decoded_key-Lands :
        (m : Machine H)
        → m.consumed ≡ c
        → (f : ℕ → M H Bool) → ((u : ℕ) (x : Machine H) → (f u x).1.consumed ≡ end + 1)
        → Lands c env.input.len
            (Went env.input.len c)
            (continue (decode_key env.input start end m) f)
    decoded_key-Lands m e f go =
        let within_bytes : end ≤ length bs = omega (arith, inside, view.len_eq) in
        keep-Lands c env.input.len c (Went env.input.len c) (decode_key env.input start end m) f
          (omega arith) (omega (arith, le, inside))
          (decode_key-consumed view start end within_bytes stop m ∙ e)
          (λ u x e'. settled (f u x) (go u x) (omega (arith, le)) (omega (arith, inside)))

    intern-Lands :
        (bytes : Bytes) (hash : ℕ) (found : Option Bytes) (m : Machine H)
        → m.consumed ≡ c
        → Lands c env.input.len (Went env.input.len c) (intern env start end bytes hash found m)
    intern-Lands bytes hash none m e = decoded_key-Lands m e _ (λ u x.
        report_decoded-consumed env end u (record x {
          keys = stored_in x.keys (put x.keys bytes hash x.tok.chars);
          tok = stop_interning x.tok;
        }))
    intern-Lands bytes hash (some found) m e =
        settled _ (report_key-consumed env.on found (utf16_len found) _) (omega (arith, le))
          (omega (arith, inside))

    with_bytes-Lands :
        (bytes : Option Bytes) (m : Machine H)
        → m.consumed ≡ c
        → Lands c env.input.len (Went env.input.len c) (with_bytes env start end bytes m)
    with_bytes-Lands none m e = decoded_key-Lands m e _ (λ u x. report_decoded-consumed env end u x)
    with_bytes-Lands (some bytes) m e =
        intern-Lands bytes (fold_hash initial_hash bytes)
          (lookup m.keys bytes (fold_hash initial_hash bytes)) _ e

  closed_key-Lands :
      (env : Env F H) {bs : Bytes}
      → IsView env.input bs
      → (c start : ℕ) (r : KeyScan) (m : Machine H) → m.consumed ≡ c
      → c ≤ env.input.len
      → ((end : ℕ) (esc : Bool)
          → r ≡ closed_at end esc
          → (c ≤ end) × ((end < env.input.len) × (env.input.at end ≡ b'"')))
      → Lands c env.input.len (Went env.input.len c) (closed_key env start r m)
  closed_key-Lands env view c start incomplete m e le at_end =
      (omega (arith, e), omega (arith, e, le))
  closed_key-Lands env view c start (bad_key x) m e le at_end =
      (omega (arith, e), omega (arith, e, le))
  closed_key-Lands env view c start (closed_at end esc) m e le at_end =
      let (before, (inside, quote)) = at_end end esc refl in
      keep-Lands c env.input.len c (Went env.input.len c) (ensure_chars m) _ (omega arith) le
        (ensure_chars-Keeps.same m ∙ e)
        (λ u x e'.
          with_bytes-Lands env view c start end before inside (λ h. ground (arith, quote)) _ _ e')

  pub process_key-Lands :
      (env : Env F H) {bs : Bytes}
      → IsView env.input bs
      → (m : Machine H) → m.consumed < env.input.len
      → Lands m.consumed env.input.len (Went env.input.len m.consumed) (process_key env m)
  unfolding process_key
  process_key-Lands env view m h =
      let start = m.consumed + 1 in
      closed_key-Lands env view m.consumed start _ m refl (omega (arith, h)) (λ end esc e.
        let (le, rest) =
          scan_key-closed env.input env.limits.max_name_length start end esc
            (env.input.len - start + 1) start false e in
        (omega (arith, le), rest))

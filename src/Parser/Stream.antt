-- ===== src/Parser/Stream.antt =====
-- Calls of `receive` of the parser in src/parser.rs one after another, with bytes that the caller adds to
-- the ring in between: what is left in it, and what is counted towards the document's length.
use rjsonparser.Prelude.{
  ℕ, ◌+◌, ◌-◌, ◌≤◌, ◌<◌, ◌≡◌, refl, sym, ap, ◌∙◌, Bool, true, false, ◌&&◌, chosen, Option, some, [],
  ◌++◌, append-nil, append_assoc, Bytes, ltb, ◌==◌, if◌then◌else◌, length, length-append, take,
  drop, take-append-drop, arith,
}
use mathlib.Core.Path.{subst}
use rjsonparser.Error.{ParseError, Result, ok, err}
use rjsonparser.Float.{Float}
use rjsonparser.Handler.{ContentHandler}
use rjsonparser.Limits.{ParserLimits}
use rjsonparser.Loopbuf.{Spans, LoopBuf, IsRing}
use rjsonparser.Parser.{
  Bom, need_more, skip, check_bom, Parser, Left, run_tokenizer, after_bom, process, settle, counted,
  feed_within, feed, receive as receive_bytes,
}
use rjsonparser.Parser.Feeding.{Fed, Counted, receive-Fed}

-- What parsing does not touch.
abbrev pub Settings : {H : Type 0} → Parser H → Parser H → Type 0
Settings p q = (q.limits ≡ p.limits) × ((q.closed ≡ p.closed) × (q.buffer_size ≡ p.buffer_size))

module _ {F H : Type 0} (float : Float F) (on : ContentHandler F H) where
  after_bom-kept :
      (skip_input : Spans → ℕ → Spans) (p : Parser H) (input : Spans) (r : Result Bom)
      → Settings p (after_bom float on skip_input p input r).1.0
        × ((after_bom float on skip_input p input r).1.0.document_length ≡ p.document_length)
  unfolding run_tokenizer
  after_bom-kept skip_input p input (err e) = ((refl, (refl, refl)), refl)
  after_bom-kept skip_input p input (ok need_more) = ((refl, (refl, refl)), refl)
  after_bom-kept skip_input p input (ok (skip n)) = ((refl, (refl, refl)), refl)

  pub process-kept :
      (skip_input : Spans → ℕ → Spans) (p : Parser H) (input : Spans)
      → Settings p (process float on skip_input p input).1.0
        × ((process float on skip_input p input).1.0.document_length ≡ p.document_length)
  unfolding process run_tokenizer
  process-kept skip_input p input =
      chosen p.checked_bom
        (λ (r : Result (Unit {0}) × (Parser H × ℕ)).
          Settings p r.1.0 × (r.1.0.document_length ≡ p.document_length))
        _ _ (λ _. ((refl, (refl, refl)), refl))
        (λ _. after_bom-kept skip_input p input (check_bom input))

module _ {F H B : Type 0} (float : Float F) (on : ContentHandler F H) (ring : LoopBuf B)
    {contents : B → Bytes} (laws : IsRing ring contents) where
  -- A call that succeeds counts the bytes that are new, against the limit.
  abbrev Counts : ℕ → Parser H → B → Left H B → Type 0
  Counts max p buf (ok u, (q, rest)) =
      Settings p q
      × ((q.document_length ≡ p.document_length + (ring.len buf - p.unconsumed))
          × (0 < ring.len buf → q.document_length ≤ max))
  Counts max p buf (err e, _) = Unit {0}

  either-Counts :
      (max : ℕ) (p y : Parser H) (buf rest : B) (b : Bool) (e : ParseError)
      → Counts max p buf (ok tt, (y, rest))
      → Counts max p buf ((if b then err e else ok tt), (y, rest))
  either-Counts max p y buf rest true e c = tt
  either-Counts max p y buf rest false e c = c

  settle-Counts :
      (max : ℕ) (p : Parser H) (buf : B) (check_room : Bool)
      (r : Result (Unit {0}) × (Parser H × ℕ))
      → Settings p r.1.0
      → r.1.0.document_length ≡ p.document_length + (ring.len buf - p.unconsumed)
      → p.document_length + (ring.len buf - p.unconsumed) ≤ max
      → Counts max p buf (settle float on ring check_room buf r)
  settle-Counts max p buf check_room (err e, (x, n)) kept count fits = tt
  settle-Counts max p buf check_room (ok u, (x, n)) kept count fits =
      let rest = ring.advance buf n in
      either-Counts max p
        (record x { unconsumed = ring.len rest; underflow = ltb 0 (ring.len rest) }) buf rest
        (check_room && n == 0 && ring.is_full rest) _
        (kept, (count, λ _. omega (arith, count, fits)))

  feed_within-Counts :
      (max : ℕ) (check_room : Bool) (p : Parser H) (buf : B)
      → Counts max p buf (feed_within float on ring (some max) check_room p buf)
  feed_within-Counts max check_room p buf =
      let q = counted float on ring p (ring.len buf) in
      let kept = process-kept float on ring.skip q (ring.spans buf) in
      chosen (ltb max q.document_length) (Counts max p buf) _ _ (λ _. tt)
        (λ fits.
          settle-Counts max p buf check_room (process float on ring.skip q (ring.spans buf)) kept.0
            kept.1 (ground (arith, fits)))

  receive-Counts :
      (max : ℕ) (p : Parser H) (buf : B)
      → p.limits.max_document_length ≡ some max
      → Counts max p buf (receive_bytes float on ring p buf)
  unfolding receive_bytes feed
  receive-Counts max p buf limit =
      chosen p.closed (Counts max p buf) _ _ (λ _. tt)
        (λ _.
          chosen (ring.len buf == 0) (Counts max p buf) _ _
            (λ nothing. ((refl, (refl, refl)), (ground (arith, nothing), ground (arith, nothing))))
            (λ _.
              subst (λ (m : Option ℕ). Counts max p buf (feed_within float on ring m true p buf))
                (sym limit) (feed_within-Counts max true p buf)))

  -- A run of calls of `receive`, each with more bytes in the ring, all of which succeed: the bytes that the
  -- caller has added, from a parser and its ring to what the calls leave.
  pub data Stream : Parser H → B → Bytes → Parser H → B → Type 0 where
    begin : {p : Parser H} {buf : B} → Stream p buf [] p buf
    arrive :
        {p q q' : Parser H} {buf rest rest' : B} {bytes : Bytes}
        → Stream p buf bytes q rest
        → (chunk : Bytes) → length chunk ≤ ring.spare_len rest
        → receive_bytes float on ring q (ring.extend_from_slice rest chunk) ≡ (ok tt, (q', rest'))
        → Stream p buf (bytes ++ chunk) q' rest'

  -- What a run leaves.
  abbrev pub Streamed : Parser H → B → Bytes → Parser H → B → Type 0
  Streamed p buf bytes q rest =
      (ring.capacity rest ≡ ring.capacity buf)
      × ((q.unconsumed ≡ length (contents rest))
          × ((q.underflow ≡ ltb 0 q.unconsumed)
              × ((used : Bytes) × (contents buf ++ bytes ≡ used ++ contents rest))))

  fed-Streamed :
      (p q q' : Parser H) (buf rest rest' : B) (bytes chunk : Bytes)
      → Streamed p buf bytes q rest
      → length chunk ≤ ring.spare_len rest
      → Fed float on ring laws true (ring.extend_from_slice rest chunk) (ok tt, (q', rest'))
      → Streamed p buf (bytes ++ chunk) q' rest'
  fed-Streamed p q q' buf rest rest' bytes chunk (room, (left, (under, (used, split)))) fits
        (n, ((le, (gone, same)), (left', (under', _)))) =
      let more = contents rest ++ chunk in
      let new : contents rest' ≡ drop n more =
        gone ∙ ap (drop n) (laws.extend_eq rest chunk fits) in
      (
        same ∙ laws.extend_capacity rest chunk fits ∙ room,
        (
          left',
          (
            under' ∙ ap (ltb 0) (sym left'),
            (
              used ++ take n more,
              sym (append_assoc (contents buf) bytes chunk)
                  ∙ ap (λ (x : Bytes). x ++ chunk) split
                  ∙ append_assoc used (contents rest) chunk
                  ∙ ap (λ (x : Bytes). used ++ x) (sym (take-append-drop n more))
                  ∙ sym (append_assoc used (take n more) (drop n more))
                  ∙ ap (λ (x : Bytes). (used ++ take n more) ++ x) (sym new),
            ),
          ),
        ),
      )

  grown :
      (p q : Parser H) (buf rest : B) (bytes chunk : Bytes)
      → Streamed p buf bytes q rest
      → length chunk ≤ ring.spare_len rest
      → Counted float on ring laws q (ring.extend_from_slice rest chunk)
  grown p q buf rest bytes chunk s fits = (
    omega (
      arith,
      s.1.0,
      ap length (laws.extend_eq rest chunk fits),
      length-append (contents rest) chunk,
    ),
    s.1.1.0,
  )

  -- After any run of calls that succeed the ring holds the last of the bytes that were ever in it, the
  -- parser has noted how many they are, and the ring has its capacity: no byte is lost, doubled or moved.
  pub Stream-Streamed :
      {p q : Parser H} {buf rest : B} {bytes : Bytes}
      → 0 < ring.capacity buf
      → p.unconsumed ≡ length (contents buf)
      → p.underflow ≡ ltb 0 p.unconsumed
      → Stream p buf bytes q rest
      → Streamed p buf bytes q rest
  Stream-Streamed room left under begin = (refl, (left, (under, ([], append-nil _))))
  Stream-Streamed {p = p} {buf = buf} room left under
        (arrive {q = q} {q'} {rest = rest} {rest'} {bytes} run chunk fits call) =
      let s = Stream-Streamed room left under run in
      fed-Streamed p q q' buf rest rest' bytes chunk s fits (
        subst (Fed float on ring laws true (ring.extend_from_slice rest chunk)) call (
          receive-Fed float on ring laws q (ring.extend_from_slice rest chunk)
            (omega (arith, room, s.0, laws.extend_capacity rest chunk fits))
            (grown p q buf rest bytes chunk s fits)))

  -- What a run counts.
  abbrev pub CountedTo : ℕ → Parser H → Bytes → Parser H → Type 0
  CountedTo max p bytes q =
      Settings p q
      × ((q.document_length ≡ p.document_length + length bytes)
          × (p.document_length ≤ max → q.document_length ≤ max))

  call-CountedTo :
      (max : ℕ) (p q q' : Parser H) (buf rest rest' : B) (bytes chunk : Bytes)
      → Streamed p buf bytes q rest
      → length chunk ≤ ring.spare_len rest
      → CountedTo max p bytes q
      → Counts max q (ring.extend_from_slice rest chunk) (ok tt, (q', rest'))
      → CountedTo max p (bytes ++ chunk) q'
  call-CountedTo max p q q' buf rest rest' bytes chunk s fits (kept, (count, under))
        (kept', (count', under')) =
      let new = laws.extend_eq rest chunk fits in
      let size : ring.len (ring.extend_from_slice rest chunk)
          ≡ length (contents rest) + length chunk =
        laws.len_eq (ring.extend_from_slice rest chunk)
        ∙ ap length new
        ∙ length-append (contents rest) chunk in
      let total : q'.document_length ≡ p.document_length + length (bytes ++ chunk) =
        omega (arith, count', count, size, s.1.0, length-append bytes chunk) in
      (
        (kept'.0 ∙ kept.0, (kept'.1.0 ∙ kept.1.0, kept'.1.1 ∙ kept.1.1)),
        (total, λ h. ground (arith, under h, under', count', size, s.1.0)),
      )

  -- Under a limit on the document's length, a run of calls that succeed has counted the bytes that the caller
  -- added once each, however often a call left some of them in the ring, and kept to the limit.
  pub Stream-CountedTo :
      (max : ℕ) {p q : Parser H} {buf rest : B} {bytes : Bytes}
      → p.limits.max_document_length ≡ some max
      → 0 < ring.capacity buf
      → p.unconsumed ≡ length (contents buf)
      → p.underflow ≡ ltb 0 p.unconsumed
      → Stream p buf bytes q rest
      → CountedTo max p bytes q
  Stream-CountedTo max limit room left under begin = ((refl, (refl, refl)), (omega arith, λ h. h))
  Stream-CountedTo max {p = p} {buf = buf} limit room left under
        (arrive {q = q} {q'} {rest = rest} {rest'} {bytes} run chunk fits call) =
      let c = Stream-CountedTo max limit room left under run in
      call-CountedTo max p q q' buf rest rest' bytes chunk (Stream-Streamed room left under run)
        fits c
        (subst (Counts max q (ring.extend_from_slice rest chunk)) call (
          receive-Counts max q (ring.extend_from_slice rest chunk)
            (ap (λ (l : ParserLimits). l.max_document_length) c.0.0 ∙ limit)))

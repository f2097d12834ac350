-- ===== src/Parser/Lifecycle.antt =====
-- The end of a document in src/parser.rs: what `close` accepts, and what a closed parser does.
use rjsonparser.Prelude.{
  ℕ, ◌≡◌, refl, ◌∙◌, Bool, true, false, not, ◌||◌, chosen, Option, none, some, List, [], ◌∷◌, ltb,
  ◌==◌, if◌then◌else◌, arith,
}
use rjsonparser.Error.{Result, ok, err, new}
use rjsonparser.Float.{Float}
use rjsonparser.Handler.{ContentHandler}
use rjsonparser.Loopbuf.{LoopBuf}
use rjsonparser.Parser.{
  Parser, Left, machine_of, is_none, process, settle, counted, feed_within, feed,
  receive as receive_bytes, unclosed, ended, check_end, after_feed, given_chance, close,
}
use rjsonparser.Parser.Stream.{process-kept}
use rjsonparser.Tokenizer.Machine.{Tokenizer, Machine, NestToken, nest_object, nest_array}
use rjsonparser.Tokenizer.Numbers.{
  NumStage, no_stage, after_minus, leading_zero, integer, fraction_dot, fraction, exponent_mark,
  exponent_sign, exponent,
}
use rjsonparser.Tokenizer.Receive.{end_number, emit_number, end_of_input}

-- Nothing is open: no string, no number, no container, and a token has been seen.
abbrev pub IsComplete : Tokenizer → Type 0
IsComplete t =
    (t.in_string ≡ false)
    × ((t.number.stage ≡ no_stage) × ((t.seen_any_token ≡ true) × (t.depth_stack ≡ [])))

module _ {F H : Type 0} (float : Float F) (on : ContentHandler F H) where
  -- The end of the input leaves no string and no number open.
  abbrev Over : Result (Unit {0}) × Machine H → Type 0
  Over (ok u, m) = (m.tok.in_string ≡ false) × (m.tok.number.stage ≡ no_stage)
  Over (err e, m) = Unit {0}

  emit_number-Over : (m : Machine H) → m.tok.in_string ≡ false → Over (emit_number float on m)
  unfolding emit_number
  emit_number-Over m h = ground (arith, h)

  end_number-Over :
      (stage : NumStage) (m : Machine H)
      → m.tok.number.stage ≡ stage
      → m.tok.in_string ≡ false
      → Over (end_number float on stage m)
  end_number-Over no_stage m e h = (h, e)
  end_number-Over after_minus m e h = tt
  end_number-Over fraction_dot m e h = tt
  end_number-Over exponent_mark m e h = tt
  end_number-Over exponent_sign m e h = tt
  end_number-Over leading_zero m e h = emit_number-Over m h
  end_number-Over integer m e h = emit_number-Over m h
  end_number-Over fraction m e h = emit_number-Over m h
  end_number-Over exponent m e h = emit_number-Over m h

  end_of_input-Over : (m : Machine H) → Over (end_of_input float on m)
  unfolding end_of_input
  end_of_input-Over m = ground (arith, end_number-Over m.tok.number.stage m refl)

taken_if : {A : Type 0} (b : Bool) (x y : A) → b ≡ true → (if b then x else y) ≡ x
taken_if true x y h = refl
taken_if false x y h = absurd (ground (arith, h))

module _ {F H B : Type 0} (float : Float F) (on : ContentHandler F H) (ring : LoopBuf B) where
  -- A method that succeeds has taken every byte and left a complete document.
  abbrev pub Accepted : Left H B → Type 0
  Accepted (ok u, (q, rest)) =
      (ring.len rest ≡ 0) × ((t : Tokenizer) × ((q.tokenizer ≡ some t) × IsComplete t))
  Accepted (err e, _) = Unit {0}

  ended-Accepted :
      (p : Parser H) (buf : B)
      → ring.len buf ≡ 0
      → (r : Result (Unit {0}) × Machine H) → Over float on r
      → Accepted (ended float on ring p buf r)
  ended-Accepted p buf empty (err e, m) o = tt
  ended-Accepted p buf empty (ok u, m) o = checked m.tok.seen_any_token refl m.tok.depth_stack refl
    where
      checked :
          (seen : Bool)
          → m.tok.seen_any_token ≡ seen
          → (stack : List NestToken) → m.tok.depth_stack ≡ stack
          → Accepted (
            (if not seen then err (new "No data") else unclosed float on ring stack),
            (
              record p {
                handler = m.handler;
                key_symbol_table = m.keys;
                locator = m.locator;
                tokenizer = some m.tok;
              },
              buf,
            ),
          )
      checked false e stack e' = tt
      checked true e [] e' = (empty, (m.tok, (refl, (o.0, (o.1, (e, e'))))))
      checked true e (nest_object ∷ _) e' = tt
      checked true e (nest_array ∷ _) e' = tt

  check_end-Accepted :
      (p : Parser H) (buf : B) (t : Option Tokenizer) → Accepted (check_end float on ring p buf t)
  check_end-Accepted p buf none = tt
  check_end-Accepted p buf (some t) =
      chosen (not (ring.len buf == 0)) Accepted _ _ (λ _. tt)
        (λ none_left.
          ended-Accepted p buf (ground (arith, none_left))
            (end_of_input float on (machine_of float on p))
            (end_of_input-Over float on (machine_of float on p)))

  after_feed-Accepted : (r : Left H B) → Accepted (after_feed float on ring r)
  after_feed-Accepted (err e, (p, buf)) = tt
  after_feed-Accepted (ok u, (p, buf)) = check_end-Accepted p buf p.tokenizer

  -- `close` of a parser that is open returns `Ok` only where the ring is empty and the document complete: a
  -- token was seen, and no string, no number and no container is open.
  pub close-Accepted :
      (p : Parser H) (buf : B) → p.closed ≡ false → Accepted (close float on ring p buf)
  unfolding close
  close-Accepted p buf opened =
      chosen p.closed Accepted _ _ (λ shut. absurd (ground (arith, opened, shut)))
        (λ _. after_feed-Accepted (given_chance float on ring (record p { closed = true }) buf))

  -- A method leaves the parser closed.
  abbrev Shut : Left H B → Type 0
  Shut r = r.1.0.closed ≡ true

  settle-Shut :
      (check_room : Bool) (buf : B) (r : Result (Unit {0}) × (Parser H × ℕ))
      → r.1.0.closed ≡ true
      → Shut (settle float on ring check_room buf r)
  settle-Shut check_room buf (err e, (p, n)) h = h
  settle-Shut check_room buf (ok u, (p, n)) h = h

  process-shut :
      (p : Parser H) (buf : B)
      → p.closed ≡ true
      → (process float on ring.skip p (ring.spans buf)).1.0.closed ≡ true
  process-shut p buf h = (process-kept float on ring.skip p (ring.spans buf)).0.1.0 ∙ h

  feed_within-Shut :
      (max : Option ℕ) (check_room : Bool) (p : Parser H) (buf : B)
      → p.closed ≡ true
      → Shut (feed_within float on ring max check_room p buf)
  feed_within-Shut none check_room p buf h =
      settle-Shut check_room buf (process float on ring.skip p (ring.spans buf))
        (process-shut p buf h)
  feed_within-Shut (some max) check_room p buf h =
      let q = counted float on ring p (ring.len buf) in
      chosen (ltb max q.document_length) Shut _ _ (λ _. h)
        (λ _.
          settle-Shut check_room buf (process float on ring.skip q (ring.spans buf))
            (process-shut q buf h))

  feed-Shut :
      (check_room : Bool) (p : Parser H) (buf : B)
      → p.closed ≡ true
      → Shut (feed float on ring check_room p buf)
  unfolding feed
  feed-Shut check_room p buf h =
      chosen (ring.len buf == 0) Shut _ _ (λ _. h)
        (λ _. feed_within-Shut p.limits.max_document_length check_room p buf h)

  check_end-Shut :
      (p : Parser H) (buf : B) (t : Option Tokenizer)
      → p.closed ≡ true
      → Shut (check_end float on ring p buf t)
  check_end-Shut p buf none h = h
  check_end-Shut p buf (some t) h =
      chosen (not (ring.len buf == 0)) Shut _ _ (λ _. h)
        (λ _. ended-Shut (end_of_input float on (machine_of float on p)))
    where
      ended-Shut : (r : Result (Unit {0}) × Machine H) → Shut (ended float on ring p buf r)
      ended-Shut (ok u, m) = h
      ended-Shut (err e, m) = h

  after_feed-Shut : (r : Left H B) → Shut r → Shut (after_feed float on ring r)
  after_feed-Shut (err e, (p, buf)) h = h
  after_feed-Shut (ok u, (p, buf)) h = check_end-Shut p buf p.tokenizer h

  close-Shut : (p : Parser H) (buf : B) → Shut (close float on ring p buf)
  unfolding close
  close-Shut p buf =
      let q = record p { closed = true } in
      chosen p.closed Shut _ _ (λ h. h)
        (λ _. after_feed-Shut (given_chance float on ring q buf) (
          chosen (is_none p.tokenizer || not (ring.len buf == 0)) Shut _ _
            (λ _. feed-Shut false q buf refl) (λ _. refl)))

  abbrev pub Refuses : Parser H → B → Type 0
  Refuses q more =
      (receive_bytes float on ring q more
        ≡ (err (new "Cannot receive data after close()"), (q, more)))
      × (close float on ring q more ≡ (ok tt, (q, more)))

  shut-Refuses : (q : Parser H) (more : B) → q.closed ≡ true → Refuses q more
  unfolding receive_bytes close
  shut-Refuses q more h = (taken_if q.closed _ _ h, taken_if q.closed _ _ h)

  -- After `close`, whether it returned `Ok` or an error, `receive` returns the error that says so and `close`
  -- returns `Ok`, and neither changes the parser or the ring.
  pub close-Refuses : (p : Parser H) (buf more : B) → Refuses (close float on ring p buf).1.0 more
  close-Refuses p buf more = shut-Refuses (close float on ring p buf).1.0 more (close-Shut p buf)

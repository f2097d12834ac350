-- ===== src/Tokenizer/Reach/Receiving.antt =====
-- `receive` of src/tokenizer.rs stays within the bytes and ends.
use rjsonparser.Prelude.{
  ℕ, zero, suc, ◌+◌, ◌-◌, ◌*◌, ◌≤◌, ◌<◌, ◌≡◌, inl, inr, Bool, true, false, Bool-cases, chosen,
  Bytes, ltb, ltb→lt, if◌then◌else◌, arith,
}
use rjsonparser.Error.{Result, ok, err}
use rjsonparser.Exec.{continue, ◌>>◌, pure}
use rjsonparser.Loopbuf.{IsView}
use rjsonparser.Tokenizer.Machine.{Machine, M, Env}
use rjsonparser.Tokenizer.Numbers.{no_stage, NumStep, reject, take_byte, finished, number_byte}
use rjsonparser.Tokenizer.Receive.{
  is_space, emit_number, in_number, number_limit, digits_run, after_byte, number_loop,
  continue_number, receive_round, receive_loop, receive,
}
use rjsonparser.Tokenizer.Strings.{continue_string}
use rjsonparser.Tokenizer.Reach.{Lands, Went, continue-Lands}
use rjsonparser.Tokenizer.Reach.Digits.{Within, continue_number-Lands}
use rjsonparser.Tokenizer.Reach.Rounds.{process_token-Lands, process_whitespace-Lands}
use rjsonparser.Tokenizer.Reach.Text.{continue_string-Lands}

module _ {H : Type 0} where
  -- The number is over where the action says so.
  abbrev Ended : Result Bool × Machine H → Type 0
  Ended (ok true, m) = m.tok.number.stage ≡ no_stage
  Ended _ = Unit {0}

module _ {H A : Type 0} where
  continue-Ended :
      (r : Result A × Machine H) (f : A → M H Bool)
      → ((a : A) (m : Machine H) → Ended (f a m))
      → Ended (continue r f)
  continue-Ended (ok a, m) f go = go a m
  continue-Ended (err e, m) f go = tt

module _ {F H : Type 0} (env : Env F H) where
  emit_number-Ended : (m : Machine H) → Ended ((emit_number env.float env.on >> pure true) m)
  unfolding emit_number
  emit_number-Ended m = ground arith

  after_byte-Ended :
      (next : M H Bool) (step : NumStep) (m : Machine H)
      → ((x : Machine H) → Ended (next x))
      → Ended (after_byte next env step m)
  after_byte-Ended next (reject e) m go = tt
  after_byte-Ended next finished m go = emit_number-Ended m
  after_byte-Ended next (take_byte n) m go =
      continue-Ended
        (number_limit env n
          (record m { consumed = m.consumed + 1; tok = record m.tok { number = n } }))
        _ (λ u x. go x)

  behind :
      (ended : Bool) (m : Machine H) (next : M H Bool)
      → ((x : Machine H) → Ended (next x))
      → Ended (
          (if ended
              then pure false
              else after_byte next env (number_byte m.tok.number (env.input.at m.consumed)))
            m)
  behind true m next go = tt
  behind false m next go =
      after_byte-Ended next (number_byte m.tok.number (env.input.at m.consumed)) m go

  number_loop-Ended : (fuel : ℕ) (m : Machine H) → Ended (number_loop fuel env m)
  unfolding number_loop
  number_loop-Ended zero m = tt
  number_loop-Ended (suc fuel) m = elim (Bool-cases (ltb m.consumed env.input.len)) [
    | inr over ↦ rw over tt
    | inl more ↦ rw more (
        continue-Ended (digits_run env m) _
          (λ ended x. behind ended x (number_loop fuel env) (number_loop-Ended fuel)))
  ]

  continue_number-Ended : (m : Machine H) → Ended (continue_number env m)
  unfolding continue_number
  continue_number-Ended m = number_loop-Ended (env.input.len - m.consumed + 1) m

  -- What is left to do: twice the bytes, and the number that is open.
  abbrev pub left_of : Machine H → ℕ
  left_of m = 2 * (env.input.len - m.consumed) + (if in_number m.tok.number.stage then 1 else 0)

  abbrev Smaller : ℕ → Result Bool × Machine H → Type 0
  Smaller size (ok true, m) = left_of m < size
  Smaller size (ok false, m) = Unit {0}
  Smaller size (err e, m) = Unit {0}

  Went-Smaller :
      (size from : ℕ) (r : Result Bool × Machine H)
      → 2 * (env.input.len - from) ≤ size
      → Lands from env.input.len (Went env.input.len from) r
      → Smaller size r
  Went-Smaller size from (ok true, m) le w = ground (arith, le, w)
  Went-Smaller size from (ok false, m) le w = tt
  Went-Smaller size from (err e, m) le w = tt

  Ended-Smaller :
      (size from : ℕ) (r : Result Bool × Machine H)
      → 2 * (env.input.len - from) < size
      → Lands from env.input.len (Within env.input.len from) r
      → Ended r
      → Smaller size r
  Ended-Smaller size from (ok true, m) le w e = rw e (omega (arith, le, w))
  Ended-Smaller size from (ok false, m) le w e = tt
  Ended-Smaller size from (err x, m) le w e = tt

  within :
      (from : ℕ) (r : Result Bool × Machine H)
      → Lands from env.input.len (Went env.input.len from) r
      → Lands from env.input.len (Within env.input.len from) r
  within from (ok true, m) w = (omega (arith, w), w.1)
  within from (ok false, m) w = w
  within from (err e, m) w = w

  Went-round :
      (m : Machine H) (r : Result Bool × Machine H)
      → Lands m.consumed env.input.len (Went env.input.len m.consumed) r
      → Lands m.consumed env.input.len (Within env.input.len m.consumed) r × Smaller (left_of m) r
  Went-round m r w = (within m.consumed r w, Went-Smaller (left_of m) m.consumed r (omega arith) w)

  -- A round stays within the bytes, and where `receive` goes on there is less to do.
  receive_round-Smaller :
      {bs : Bytes}
      → IsView env.input bs
      → (m : Machine H) → m.consumed < env.input.len
      → Lands m.consumed env.input.len (Within env.input.len m.consumed) (receive_round env m)
        × Smaller (left_of m) (receive_round env m)
  unfolding receive_round
  receive_round-Smaller view m h =
      let P = λ (r : Result Bool × Machine H).
        Lands m.consumed env.input.len (Within env.input.len m.consumed) r
        × Smaller (left_of m) r in
      chosen m.tok.in_string P _ _
        (λ _.
          Went-round m (continue_string env m)
            (continue_string-Lands env view m (omega (arith, h))))
        (λ _.
          chosen (in_number m.tok.number.stage) P _ _
            (λ number.
              let lands = continue_number-Lands env view m (omega (arith, h)) in
              (
                lands,
                Ended-Smaller (left_of m) m.consumed (continue_number env m)
                    (ground (arith, number)) lands (continue_number-Ended m),
              ))
            (λ _.
              chosen (is_space (env.input.at m.consumed)) P _ _
                (λ space. Went-round m _ (process_whitespace-Lands env m h space))
                (λ _. Went-round m _ (
                  process_token-Lands env view (env.input.at m.consumed)
                    (record m { tok = record m.tok { after_cr = false } }) h))))

  -- The position goes on and stays within the bytes, on an error too.
  abbrev pub Inside : ℕ → Result (Unit {0}) × Machine H → Type 0
  Inside from r = Lands from env.input.len (λ _ at. (from ≤ at) × (at ≤ env.input.len)) r

  further :
      (from at : ℕ) → from ≤ at → (r : Result (Unit {0}) × Machine H) → Inside at r → Inside from r
  further from at le (ok u, m) h = (omega (arith, le, h), h.1)
  further from at le (err e, m) h = (omega (arith, le, h), h.1)

  go_on :
      (on : Bool) (from : ℕ) (x : Machine H)
      → Within env.input.len from on x.consumed
      → (next : M H (Unit {0})) → Inside x.consumed (next x)
      → Inside from ((if on then next else pure tt) x)
  go_on false from x w next h = w
  go_on true from x w next h = further from x.consumed w.0 (next x) h

  receive_loop-Inside :
      {bs : Bytes}
      → IsView env.input bs
      → (fuel : ℕ) (m : Machine H) → m.consumed ≤ env.input.len
      → Inside m.consumed (receive_loop fuel env m)
  unfolding receive_loop
  receive_loop-Inside view zero m le = (omega arith, le)
  receive_loop-Inside view (suc fuel) m le = elim (Bool-cases (ltb m.consumed env.input.len)) [
    | inr over ↦ rw over (omega arith, le)
    | inl more ↦
        let round = receive_round-Smaller view m (ltb→lt m.consumed env.input.len more) in
        rw more (
          continue-Lands m.consumed env.input.len (Within env.input.len m.consumed) _
            (receive_round env m) _ round.0
            (λ on x w.
              go_on on m.consumed x w (receive_loop fuel env)
                (receive_loop-Inside view fuel x w.1)))
  ]

  abbrev WithinBytes : Machine H → Type 0
  WithinBytes m = m.consumed ≤ env.input.len

  -- `receive` consumes no more bytes than the ring holds and never goes back, whatever the bytes, the
  -- handler and the limits are, also where it returns an error.
  pub receive-Inside :
      {bs : Bytes}
      → IsView env.input bs
      → (m : Machine H) → m.consumed ≤ env.input.len
      → Inside m.consumed (receive env m)
  unfolding receive
  receive-Inside view m le = receive_loop-Inside view (2 * (env.input.len - m.consumed) + 2) m le

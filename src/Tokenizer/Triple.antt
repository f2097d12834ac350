-- ===== src/Tokenizer/Triple.antt =====
-- Reasoning on the methods of `Tokenizer` in src/tokenizer.rs: what holds of the tokenizer after a
-- method that returns `Ok`, given what held before it.
use rjsonparser.Prelude.{
  ℕ, ◌+◌, ltb, Option, none, some, ◌≡◌, refl, Bool, true, false, Option, some, ◌+◌,
}
use rjsonparser.Error.{ParseError, Result, ok, err, new_number}
use rjsonparser.Exec.{◌>>=◌, ◌>>◌, fail_if, pure, gets, continue}
use rjsonparser.Handler.{ContentHandler, Event}
use rjsonparser.Limits.{ParserLimits}
use rjsonparser.Tokenizer.Tokens.{advance}
use rjsonparser.Tokenizer.Machine.{
  Tokenizer, Machine, M, update, report, consume, consume_to, add_column, token_done,
  check_token_limit, count_token,
}

module _ {H A : Type 0} where
  abbrev pub After : (A → Tokenizer → Type 0) → Result A × Machine H → Type 0
  After Q (ok a, m) = Q a m.tok
  After Q (err e, m) = Unit {0}

  pub record Triple (P : Tokenizer → Type 0) (action : M H A) (Q : A → Tokenizer → Type 0)
      : Type 0 where
    pub run : (m : Machine H) → P m.tok → After Q (action m)

module _ {H A : Type 0} where
  After-weaken :
      (Q R : A → Tokenizer → Type 0) (r : Result A × Machine H)
      → ((a : A) (t : Tokenizer) → Q a t → R a t)
      → After Q r
      → After R r
  After-weaken Q R (ok a, m) w h = w a m.tok h
  After-weaken Q R (err e, m) w h = tt

  pub weaken :
      {P : Tokenizer → Type 0} {Q R : A → Tokenizer → Type 0} {action : M H A}
      → Triple P action Q
      → ((a : A) (t : Tokenizer) → Q a t → R a t)
      → Triple P action R
  weaken {Q = Q} {R} {action} h w = record {
    run = λ m p. After-weaken Q R (action m) w (h.run m p);
  }

module _ {H A B : Type 0} where
  After-continue :
      (R : A → Tokenizer → Type 0) (Q : B → Tokenizer → Type 0) (r : Result A × Machine H)
      (f : A → M H B)
      → After R r
      → ((a : A) → Triple (R a) (f a) Q)
      → After Q (continue r f)
  After-continue R Q (ok a, m) f h next = (next a).run m h
  After-continue R Q (err e, m) f h next = tt

  pub bind-Triple :
      {P : Tokenizer → Type 0} (R : A → Tokenizer → Type 0) {Q : B → Tokenizer → Type 0}
      {action : M H A} {f : A → M H B}
      → Triple P action R
      → ((a : A) → Triple (R a) (f a) Q)
      → Triple P (action >>= f) Q
  bind-Triple R {Q} {action} {f} first next = record {
    run = λ m h. After-continue R Q (action m) f (first.run m h) next;
  }

  After-then :
      (R : Tokenizer → Type 0) (Q : B → Tokenizer → Type 0) (r : Result A × Machine H) (n : M H B)
      → After (λ _. R) r
      → Triple R n Q
      → After Q (continue r (λ _. n))
  After-then R Q (ok a, m) n h next = next.run m h
  After-then R Q (err e, m) n h next = tt

  pub then-Triple :
      {P : Tokenizer → Type 0} (R : Tokenizer → Type 0) {Q : B → Tokenizer → Type 0}
      {action : M H A} {n : M H B}
      → Triple P action (λ _. R)
      → Triple R n Q
      → Triple P (action >> n) Q
  then-Triple R {Q} {action} {n} first next = record {
    run = λ m h. After-then R Q (action m) n (first.run m h) next;
  }

module _ {H : Type 0} where
  pub update-Triple :
      {P Q : Tokenizer → Type 0} (f : Tokenizer → Tokenizer)
      → ((t : Tokenizer) → P t → Q (f t))
      → Triple {H = H} P (update f) (λ _. Q)
  update-Triple f h = record { run = λ m p. h m.tok p }

  pub fail_if-Triple :
      {P : Tokenizer → Type 0} (b : Bool) (e : ParseError)
      → Triple {H = H} P (fail_if b e) (λ _ t. P t × (b ≡ false))
  fail_if-Triple true e = record { run = λ m p. tt }
  fail_if-Triple false e = record { run = λ m p. (p, refl) }

  pub gets-Triple :
      {P : Tokenizer → Type 0} → Triple {H = H} P (gets (λ m. m.tok)) (λ t u. P u × (t ≡ u))
  gets-Triple = record { run = λ m p. (p, refl) }

  -- Consuming bytes and moving the column leave the tokenizer as it is.
  pub advance-Triple : {P : Tokenizer → Type 0} → Triple {H = H} P advance (λ _. P)
  advance-Triple = record { run = λ m p. p }

  pub consume-Triple : {P : Tokenizer → Type 0} (n : ℕ) → Triple {H = H} P (consume n) (λ _. P)
  consume-Triple n = record { run = λ m p. p }

  pub consume_to-Triple :
      {P : Tokenizer → Type 0} (n : ℕ) → Triple {H = H} P (consume_to n) (λ _. P)
  consume_to-Triple n = record { run = λ m p. p }

  pub add_column-Triple :
      {P : Tokenizer → Type 0} (n : ℕ) → Triple {H = H} P (add_column n) (λ _. P)
  add_column-Triple n = record { run = λ m p. p }

  pub pure-Triple :
      {A : Type 0} {P : Tokenizer → Type 0} (a : A) → Triple {H = H} P (pure a) (λ _. P)
  pure-Triple a = record { run = λ m p. p }

After-report :
    {H : Type 0} (P : Tokenizer → Type 0) (r : Result (Unit {0})) (m : Machine H)
    → P m.tok
    → After (λ _. P) (r, m)
After-report P (ok u) m p = p
After-report P (err e) m p = tt

module _ {F H : Type 0} where
  -- The handler has no access to the tokenizer.
  pub report-Triple :
      {P : Tokenizer → Type 0} (on : ContentHandler F H) (e : Event F)
      → Triple {H = H} P (report on e) (λ _. P)
  report-Triple {P} on e = record {
    run = λ m p.
        After-report P (on.report e m.locator m.handler).0
          (record m { handler = (on.report e m.locator m.handler).1 }) p;
  }

-- A predicate that counting a token does not touch.
abbrev pub Blind : (Tokenizer → Type 0) → Type 0
Blind P =
    (t : Tokenizer) (seen : Bool) (n : ℕ)
    → P t
    → P (record t { seen_any_token = seen; token_count = n })

module _ {H : Type 0} where
  token_count-Triple :
      {P : Tokenizer → Type 0} → Triple {H = H} P (gets (λ m. m.tok.token_count)) (λ _. P)
  token_count-Triple = record { run = λ m p. p }

  count_token-Triple :
      {P : Tokenizer → Type 0}
      → Blind P
      → (max : Option ℕ) → Triple {H = H} P (count_token max) (λ _. P)
  count_token-Triple blind none = pure-Triple tt
  count_token-Triple {P} blind (some max) =
      then-Triple P
        (update-Triple (λ t. record t { token_count = t.token_count + 1 })
          (λ t p. blind t t.seen_any_token (t.token_count + 1) p))
        (bind-Triple (λ _. P) token_count-Triple
          (λ count.
            weaken
              (fail_if-Triple (ltb max count) (new_number "Maximum token count exceeded: " max))
              (λ _ t p. p.0)))

  pub token_done-Triple :
      {P : Tokenizer → Type 0}
      → Blind P
      → (limits : ParserLimits) → Triple {H = H} P (token_done limits) (λ _. P)
  unfolding token_done check_token_limit
  token_done-Triple {P} blind limits =
      then-Triple P
        (update-Triple (λ t. record t { seen_any_token = true })
          (λ t p. blind t true t.token_count p))
        (count_token-Triple blind limits.max_token_count)

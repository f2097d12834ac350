-- ===== src/Tokenizer/Delivery/Pieces.antt =====
-- The plain run at the front of string content, of `plain_run` in src/tokenizer.rs, as a handler hears it.
use rjsonparser.Prelude.{
  ℕ, ◌+◌, ◌-◌, ◌≤◌, ◌≡◌, sym, ap, ◌∙◌, Bool, true, false, chosen, Option, none, some, ◌++◌,
  append-nil, Bytes, ltb, length, take, drop, arith,
}
use rjsonparser.Error.{Result, ok, err, new_number}
use rjsonparser.Exec.{continue, fail_if}
use rjsonparser.Loopbuf.{IsView}
use rjsonparser.Tokenizer.Machine.{Machine, M, Env, check_limit}
use rjsonparser.Tokenizer.Strings.{decode_run, plain_run}
use rjsonparser.Tokenizer.Delivery.{IsListening, text}
use rjsonparser.Tokenizer.Delivery.Runs.{piece, Says, decode_run-Says}
use rjsonparser.Tokenizer.Reach.Decoding.{Stops, Decoded, decode_run-Decoded}

module _ {H : Type 0} (heard : H → Bytes) (bs : Bytes) where
  -- The plain run, told and up to where it was consumed.
  abbrev pub Told : Bytes → ℕ → ℕ → Result Bool × Machine H → Type 0
  Told said from end (ok cut, m) =
      (from ≤ m.consumed)
      × ((m.consumed ≤ end)
          × ((cut ≡ false → m.consumed ≡ end) × (text heard m ≡ said ++ piece bs from m.consumed)))
  Told said from end (err e, m) = Unit {0}

module _ {F H : Type 0} (env : Env F H) (heard : H → Bytes) (listens : IsListening env.on heard)
    {bs : Bytes} (view : IsView env.input bs) where
  Decoded-Told :
      (said : Bytes) (c from end : ℕ) (r : Result (ℕ × ℕ) × Machine H)
      → Decoded c from end r
      → Says heard bs said from r
      → (f : ℕ × ℕ → M H Bool)
      → ((q u : ℕ) (x : Machine H)
          → Told heard bs said from end (ok (ltb q end), record x { consumed = q })
          → Told heard bs said from end (f (q, u) x))
      → Told heard bs said from end (continue r f)
  Decoded-Told said c from end (err x, m) d s f go = tt
  Decoded-Told said c from end (ok (q, u), m) d s f go =
      go q u m (s.0, (d.1.1, (λ h. ground (arith, h, d), s.1)))

  limited-Told :
      (said : Bytes) (from end : ℕ) (limit : Option ℕ) (n : ℕ) (m : Machine H)
      (f : Unit {0} → M H Bool)
      → Told heard bs said from end (f tt m)
      → Told heard bs said from end
          (continue (check_limit limit n "Maximum string length exceeded: " m) f)
  limited-Told said from end none n m f told = told
  limited-Told said from end (some limit) n m f told = chosen_fail (ltb limit n)
    where
      chosen_fail :
          (b : Bool)
          → Told heard bs said from end
              (continue (fail_if b (new_number "Maximum string length exceeded: " limit) m) f)
      chosen_fail true = tt
      chosen_fail false = told

  nothing_more : (said : Bytes) (from at : ℕ) → at ≡ from → said ≡ said ++ piece bs from at
  nothing_more said from at e =
      let none_there : 0 ≡ at - from = omega (arith, e) in
      sym (append-nil said) ∙ ap (λ (k : ℕ). said ++ take k (drop from bs)) none_there

  pub plain_run-Told :
      (from end : ℕ) (m : Machine H)
      → m.consumed ≡ from
      → from ≤ end
      → end ≤ length bs
      → Stops env.input end
      → Told heard bs (text heard m) from end (plain_run env from end m)
  unfolding plain_run
  plain_run-Told from end m at le le' stop =
      chosen (ltb from end) (λ (a : M H Bool). Told heard bs (text heard m) from end (a m)) _ _
        (λ more.
          limited-Told (text heard m) from end env.limits.max_string_length
            (m.tok.string_bytes + (end - from)) m _
            (Decoded-Told (text heard m) m.consumed from end
              (decode_run (some env.on) env.input from end m)
              (decode_run-Decoded (some env.on) env.input from end m stop le)
              (decode_run-Says env.on heard listens view from end m stop le le') _
              (λ q u x told. told)))
        (λ none_there. (
          omega (arith, at),
          (
            omega (arith, at, le),
            (
              λ _. ground (arith, none_there, le, at),
              nothing_more (text heard m) from m.consumed at,
            ),
          ),
        ))

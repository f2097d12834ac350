-- ===== src/Tokenizer/Nesting/Content.antt =====
-- The content of a string, by `continue_string` of src/tokenizer.rs, keeps the nesting.
use Prim.Native.String.{String}
use rjsonparser.Prelude.{
  ℕ, zero, suc, ◌+◌, ◌-◌, refl, Bool, true, false, not, ltb, ◌==◌, Option, none, some,
}
use rjsonparser.Error.{new, new_number}
use rjsonparser.Limits.{ParserLimits}
use rjsonparser.Handler.{end_string_value}
use rjsonparser.Text.{encode_utf8, len_utf8}
use rjsonparser.Tokenizer.Machine.{
  State, after_value, Tokenizer, Env, M, update, free, flush_chars, check_limit,
}
use rjsonparser.Tokenizer.Strings.{
  plain_run, close_string, wait, escape_char, after_run, string_loop, continue_string, scan_plain,
}
use rjsonparser.Tokenizer.Escapes.{resolve_escape}
use rjsonparser.Tokenizer.Triple.{
  Triple, bind-Triple, then-Triple, update-Triple, report-Triple, pure-Triple, weaken,
  consume_to-Triple, add_column-Triple,
}
use rjsonparser.Tokenizer.Nesting.Decoding.{
  Kept, read-Triple, raise-Triple, lift-Triple, when-Triple, choose-Triple, refuse-Triple,
  push_str-Kept, flush_chars-Kept, decode_run-Kept,
}
use rjsonparser.Tokenizer.Nesting.Keys.{ensure_chars-Kept}
use rjsonparser.Tokenizer.Nesting.{IsNested}

-- What keeps the nesting in every state keeps it.
pub from_Kept :
    {H A : Type 0} {limits : ParserLimits} {action : M H A}
    → ((s : State) → Triple (Kept limits s) action (λ _. Kept limits s))
    → Triple (IsNested limits) action (λ _. IsNested limits)
from_Kept h = record { run = λ m p. (weaken (h m.tok.state) (λ _ t q. q.0)).run m (p, refl) }

pub check_limit-Triple :
    {H : Type 0} {P : Tokenizer → Type 0} (limit : Option ℕ) (n : ℕ) (text : String)
    → Triple {H = H} P (check_limit limit n text) (λ _. P)
check_limit-Triple none n text = pure-Triple tt
check_limit-Triple (some limit) n text = refuse-Triple (ltb limit n) (new_number text limit)

module _ {F H : Type 0} (env : Env F H) where
  -- What a method keeps.
  abbrev Keeps : {A : Type 0} → M H A → Type 0
  Keeps action = Triple (IsNested env.limits) action (λ _. IsNested env.limits)

  flush_chars-IsNested : Keeps (flush_chars env.on)
  flush_chars-IsNested = from_Kept (λ s. flush_chars-Kept env.limits s env.on)

  count_bytes : (f : Tokenizer → ℕ) → Keeps (update (λ t. record t { string_bytes = f t }))
  count_bytes f =
      update-Triple (λ t. record t { string_bytes = f t })
        (λ t h. record {
          stacked = record {
            mirrors = h.stacked.mirrors;
            bounded = h.stacked.bounded;
            key_sets = h.stacked.key_sets;
          };
          state_fits = h.state_fits;
        })

  plain_run-IsNested : (run_start run_end : ℕ) → Keeps (plain_run env run_start run_end)
  unfolding plain_run
  plain_run-IsNested run_start run_end =
      choose-Triple (ltb run_start run_end)
        (bind-Triple (λ _. IsNested env.limits) (read-Triple (λ m. m.tok.string_bytes))
          (λ bytes.
            then-Triple (IsNested env.limits)
              (check_limit-Triple env.limits.max_string_length (bytes + (run_end - run_start))
                "Maximum string length exceeded: ")
              (bind-Triple (λ _. IsNested env.limits)
                (from_Kept
                  (λ s. decode_run-Kept env.limits s (some env.on) env.input run_start run_end))
                (λ reached.
                  then-Triple (IsNested env.limits)
                    (count_bytes (λ t. t.string_bytes + (reached.0 - run_start)))
                    (then-Triple (IsNested env.limits) (add_column-Triple reached.1) (
                      then-Triple (IsNested env.limits) (consume_to-Triple reached.0)
                        (pure-Triple (ltb reached.0 run_end))))))))
        (pure-Triple false)

  close_string-IsNested : (run_end : ℕ) → Keeps (close_string env run_end)
  unfolding close_string
  close_string-IsNested run_end = then-Triple (IsNested env.limits) flush_chars-IsNested (
      then-Triple (IsNested env.limits) (consume_to-Triple (run_end + 1)) (
        then-Triple (IsNested env.limits) (add_column-Triple 1) (
          then-Triple (IsNested env.limits)
            (update-Triple (λ t. record t { in_string = false; state = after_value })
              (λ t h. record {
                stacked = record {
                  mirrors = h.stacked.mirrors;
                  bounded = h.stacked.bounded;
                  key_sets = h.stacked.key_sets;
                };
                state_fits = refl;
              }))
            (then-Triple (IsNested env.limits) (report-Triple env.on end_string_value)
              (pure-Triple true)))))

  wait-IsNested : Keeps (wait env)
  unfolding wait
  wait-IsNested = then-Triple (IsNested env.limits) flush_chars-IsNested (pure-Triple false)

  escape_char-IsNested :
      (next : M H Bool) (run_end : ℕ) (escape : Option (ℕ × ℕ))
      → Keeps next
      → Keeps (escape_char next env run_end escape)
  unfolding escape_char
  escape_char-IsNested next run_end none h = wait-IsNested
  escape_char-IsNested next run_end (some (ch, n)) h =
      bind-Triple (λ _. IsNested env.limits) (read-Triple (λ m. free m.tok))
        (λ room.
          then-Triple (IsNested env.limits)
            (when-Triple (ltb room (len_utf8 ch)) flush_chars-IsNested)
            (then-Triple (IsNested env.limits)
              (from_Kept (λ s. push_str-Kept env.limits s (encode_utf8 ch)))
              (then-Triple (IsNested env.limits) (consume_to-Triple (run_end + n)) (
                then-Triple (IsNested env.limits) (count_bytes (λ t. t.string_bytes + n)) (
                  then-Triple (IsNested env.limits) (add_column-Triple n) (
                    bind-Triple (λ _. IsNested env.limits) (read-Triple (λ m. m.tok.string_bytes))
                      (λ bytes.
                        then-Triple (IsNested env.limits)
                          (check_limit-Triple env.limits.max_string_length bytes
                            "Maximum string length exceeded: ")
                          h)))))))

  after_run-IsNested :
      (next : M H Bool) (run_end : ℕ) → Keeps next → Keeps (after_run next env run_end)
  unfolding after_run
  after_run-IsNested next run_end h = choose-Triple (run_end == env.input.len) wait-IsNested (
      choose-Triple (env.input.at run_end == b'"') (close_string-IsNested run_end) (
        choose-Triple (not (env.input.at run_end == b'\\'))
          (raise-Triple (new "Unescaped control character in string"))
          (bind-Triple (λ _. IsNested env.limits) (lift-Triple (resolve_escape env.input run_end))
            (λ escape. escape_char-IsNested next run_end escape h))))

  string_loop-IsNested : (fuel : ℕ) → Keeps (string_loop fuel env)
  unfolding string_loop
  string_loop-IsNested zero = record { run = λ m p. tt }
  string_loop-IsNested (suc fuel) =
      bind-Triple (λ _. IsNested env.limits) (read-Triple (λ m. m.consumed))
        (λ run_start.
          bind-Triple (λ _. IsNested env.limits)
            (plain_run-IsNested run_start (scan_plain env.input run_start env.input.len))
            (λ cut. choose-Triple cut wait-IsNested (
              after_run-IsNested (string_loop fuel env)
                (scan_plain env.input run_start env.input.len) (string_loop-IsNested fuel))))

  pub continue_string-IsNested : Keeps (continue_string env)
  unfolding continue_string
  continue_string-IsNested =
      then-Triple (IsNested env.limits) (from_Kept (λ s. ensure_chars-Kept env.limits s)) (
        bind-Triple (λ _. IsNested env.limits) (read-Triple (λ m. m.consumed))
          (λ start. string_loop-IsNested (env.input.len - start + 1)))

-- ===== src/Tokenizer/Nesting/Brackets.antt =====
-- The arms of `process_token` for brackets in src/tokenizer.rs keep the nesting.
use rjsonparser.Prelude.{
  suc, ◌≡◌, refl, sym, ap, ◌∙◌, Bool, true, false, not, ◌&&◌, List, [], ◌∷◌, Bytes, if◌then◌else◌,
  length, arith,
}
use rjsonparser.Error.{new}
use rjsonparser.Limits.{ParserLimits}
use rjsonparser.Handler.{start_object, end_object, start_array, end_array}
use rjsonparser.Tokenizer.Machine.{
  nest_object, nest_array, Context, in_array, in_object, expect_value, expect_key, after_value,
  Tokenizer, Env,
}
use rjsonparser.Tokenizer.Tokens.{
  state_is, top_is_object, top_is_array, pop, on_open_object, on_close_object, on_open_array,
  on_close_array,
}
use rjsonparser.Tokenizer.Triple.{Triple, then-Triple, update-Triple, advance-Triple, report-Triple}
use rjsonparser.Tokenizer.Nesting.Arms.{settle, reading, guard, keeping, check_depth-HasRoom}
use rjsonparser.Tokenizer.Nesting.{
  IsNested, IsStacked, IsStacked-Blind, HasRoom, pop-Mirrors, Within-pop, object, array, objects,
}

-- What closing an object does to the sets of keys.
pop_sets :
    (cs : List Context) (sets : List (List Bytes))
    → top_is_object cs ≡ true
    → length sets ≡ objects cs
    → length (pop sets) ≡ objects (pop cs)
pop_sets (in_object ∷ cs) (s ∷ sets) top h = omega (arith, h)
pop_sets (in_object ∷ cs) [] top h = omega (arith, h)
pop_sets (in_array ∷ cs) sets top h = ground (arith, top)
pop_sets [] sets top h = ground (arith, top)

pop_array : (cs : List Context) → top_is_array cs ≡ true → objects (pop cs) ≡ objects cs
pop_array (in_array ∷ cs) top = refl
pop_array (in_object ∷ cs) top = ground (arith, top)
pop_array [] top = ground (arith, top)

not-false : (b : Bool) → not b ≡ false → b ≡ true
not-false true h = refl
not-false false h = sym h

closed_sets :
    (reject : Bool) (cs : List Context) (sets : List (List Bytes))
    → top_is_object cs ≡ true
    → (reject ≡ true → length sets ≡ objects cs)
    → reject ≡ true
    → length (if reject then pop sets else sets) ≡ objects (pop cs)
closed_sets true cs sets top h r = pop_sets cs sets top (h r)
closed_sets false cs sets top h r = ground (arith, r)

opened_sets :
    (reject : Bool) (cs : List Context) (sets : List (List Bytes))
    → (reject ≡ true → length sets ≡ objects cs)
    → reject ≡ true
    → length (if reject then [] ∷ sets else sets) ≡ suc (objects cs)
opened_sets true cs sets h r = omega (arith, h r)
opened_sets false cs sets h r = ground (arith, r)

abbrev InObject : ParserLimits → Tokenizer → Type 0
InObject limits u = IsStacked limits u × (top_is_object u.context_stack ≡ true)

abbrev InArray : ParserLimits → Tokenizer → Type 0
InArray limits u = IsStacked limits u × (top_is_array u.context_stack ≡ true)

module _ {F H : Type 0} where
  pub on_open_array-IsNested :
      (env : Env F H) → Triple (IsNested env.limits) (on_open_array env) (λ _. IsNested env.limits)
  unfolding on_open_array
  on_open_array-IsNested env = reading (λ t.
      guard (not (state_is t.state expect_value)) (new "Unexpected '['") (
        keeping (IsStacked env.limits) (λ u p. p.0.0.stacked)
          (then-Triple (HasRoom env.limits) (check_depth-HasRoom env.limits) (
            then-Triple (HasRoom env.limits) advance-Triple (
              then-Triple (HasRoom env.limits) (report-Triple env.on start_array) (
                then-Triple (IsStacked env.limits)
                  (update-Triple
                    (λ u. record u {
                      context_stack = in_array ∷ u.context_stack;
                      depth_stack = nest_array ∷ u.depth_stack;
                    })
                    (λ u h. record {
                      mirrors = array (h.0.mirrors);
                      bounded = h.1;
                      key_sets = h.0.key_sets;
                    }))
                  (settle env.limits false (λ _. expect_value) IsStacked-Blind
                    (λ u h. (h, refl)))))))))

  pub on_open_object-IsNested :
      (env : Env F H) → Triple (IsNested env.limits) (on_open_object env) (λ _. IsNested env.limits)
  unfolding on_open_object
  on_open_object-IsNested env = reading (λ t.
      guard (not (state_is t.state expect_value)) (new "Unexpected '{'") (
        keeping (IsStacked env.limits) (λ u p. p.0.0.stacked)
          (then-Triple (HasRoom env.limits) (check_depth-HasRoom env.limits) (
            then-Triple (HasRoom env.limits) advance-Triple (
              then-Triple (HasRoom env.limits) (report-Triple env.on start_object) (
                then-Triple (λ u. IsStacked env.limits u × (top_is_object u.context_stack ≡ true))
                  (update-Triple
                    (λ u. record u {
                      context_stack = in_object ∷ u.context_stack;
                      depth_stack = nest_object ∷ u.depth_stack;
                      duplicate_key_stack =
                          if u.reject_duplicate_keys
                          then [] ∷ u.duplicate_key_stack
                          else u.duplicate_key_stack;
                    })
                    (λ u h. (
                      record {
                        mirrors = object (h.0.mirrors);
                        bounded = h.1;
                        key_sets =
                            opened_sets u.reject_duplicate_keys u.context_stack
                              u.duplicate_key_stack h.0.key_sets;
                      },
                      refl,
                    )))
                  (settle env.limits false (λ _. expect_key)
                    (λ t seen n h. (IsStacked-Blind t seen n h.0, h.1)) (λ u h. h))))))))

  pub on_close_object-IsNested :
      (env : Env F H)
      → Triple (IsNested env.limits) (on_close_object env) (λ _. IsNested env.limits)
  unfolding on_close_object
  on_close_object-IsNested env = reading (λ t.
      guard (not (top_is_object t.context_stack)) (new "Unexpected '}'") (
        guard (not (state_is t.state expect_key) && not (state_is t.state after_value))
          (new "Unexpected '}'")
          (guard t.after_comma (new "Trailing comma before '}'") (
            keeping (InObject env.limits)
              (λ u p. (
                p.0.0.0.0.stacked,
                ap (λ (v : Tokenizer). top_is_object v.context_stack) (sym p.0.0.0.1)
                    ∙ not-false (top_is_object t.context_stack) p.0.0.1,
              ))
              (then-Triple (InObject env.limits) advance-Triple (
                then-Triple (InObject env.limits) (report-Triple env.on end_object) (
                  then-Triple (IsStacked env.limits)
                    (update-Triple
                      (λ u. record u {
                        context_stack = pop u.context_stack;
                        depth_stack = pop u.depth_stack;
                        duplicate_key_stack =
                            if u.reject_duplicate_keys
                            then pop u.duplicate_key_stack
                            else u.duplicate_key_stack;
                      })
                      (λ u h. record {
                        mirrors = pop-Mirrors h.0.mirrors;
                        bounded = Within-pop env.limits.max_nesting_depth u.depth_stack h.0.bounded;
                        key_sets =
                            closed_sets u.reject_duplicate_keys u.context_stack
                              u.duplicate_key_stack h.1 h.0.key_sets;
                      }))
                    (settle env.limits false (λ _. after_value) IsStacked-Blind
                      (λ u h. (h, refl))))))))))

  pub on_close_array-IsNested :
      (env : Env F H) → Triple (IsNested env.limits) (on_close_array env) (λ _. IsNested env.limits)
  unfolding on_close_array
  on_close_array-IsNested env = reading (λ t.
      guard (not (top_is_array t.context_stack)) (new "Unexpected ']'") (
        guard (not (state_is t.state expect_value) && not (state_is t.state after_value))
          (new "Unexpected ']'")
          (guard t.after_comma (new "Trailing comma before ']'") (
            keeping (InArray env.limits)
              (λ u p. (
                p.0.0.0.0.stacked,
                ap (λ (v : Tokenizer). top_is_array v.context_stack) (sym p.0.0.0.1)
                    ∙ not-false (top_is_array t.context_stack) p.0.0.1,
              ))
              (then-Triple (InArray env.limits) advance-Triple (
                then-Triple (InArray env.limits) (report-Triple env.on end_array) (
                  then-Triple (IsStacked env.limits)
                    (update-Triple
                      (λ u. record u {
                        context_stack = pop u.context_stack;
                        depth_stack = pop u.depth_stack;
                      })
                      (λ u h. record {
                        mirrors = pop-Mirrors h.0.mirrors;
                        bounded = Within-pop env.limits.max_nesting_depth u.depth_stack h.0.bounded;
                        key_sets = λ r. h.0.key_sets r ∙ sym (pop_array u.context_stack h.1);
                      }))
                    (settle env.limits false (λ _. after_value) IsStacked-Blind
                      (λ u h. (h, refl))))))))))

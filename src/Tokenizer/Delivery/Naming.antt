-- ===== src/Tokenizer/Delivery/Naming.antt =====
-- The keys that `process_key` of src/tokenizer.rs reports, found in the table or not, to a handler that notes them.
use rjsonparser.Prelude.{
  ℕ, ◌+◌, ◌-◌, ◌≤◌, ◌<◌, ◌≡◌, ◌≢◌, refl, sym, ap, ◌∙◌, inl, inr, Bool, Bool-cases, true, false, not,
  ◌&&◌, Option, none, some, List, [], ◌∷◌, Bytes, leb, length, if◌then◌else◌, arith,
}
use mathlib.Core.Path.{subst}
use rjsonparser.Error.{Result, ok, err}
use rjsonparser.Exec.{continue}
use rjsonparser.Keys.{KeySymbolTable, put, lookup, max_entries, initial_hash}
use rjsonparser.Keys.Table.{IsTable, put-Stored, lookup-IsTable}
use rjsonparser.Loopbuf.{IsView}
use rjsonparser.Tokenizer.Machine.{Machine, M, Env, ensure_chars}
use rjsonparser.Tokenizer.ObjectKeys.{
  stored_in, stop_interning, fold_hash, KeyScan, incomplete, bad_key, closed_at, scan_key,
  decode_key, report_decoded, intern, with_bytes, closed_key, process_key,
}
use rjsonparser.Tokenizer.Strings.{utf16_len}
use rjsonparser.Tokenizer.Delivery.Bare.{Bare, decode_key-Bare}
use rjsonparser.Tokenizer.Delivery.Quotes.{Closes, scan_key-Closes, scan_key-open}
use rjsonparser.Tokenizer.Delivery.Plain.{
  IsPlain, Spelt, scan_key-IsPlain, scan_key-backslash, decode_key-Spelt,
}
use rjsonparser.Tokenizer.Delivery.Runs.{piece}
use rjsonparser.Tokenizer.Reach.Keys.{scan_key-closed}
use rjsonparser.Tokenizer.Reach.Decoding.{Stops}
use rjsonparser.Tokenizer.Delivery.Reporting.{IsNoting, Itself, Reported, report_key-Reported}

-- `put`, or what is left of it where the table is full, keeps the table in order.
stored_in-IsTable :
    (t : KeySymbolTable) (bytes value : Bytes) (hash : ℕ)
    → IsTable Itself t
    → bytes ≡ value
    → IsTable Itself (stored_in t (put t bytes hash value))
unfolding put
stored_in-IsTable t bytes value hash table e = elim (Bool-cases (leb max_entries t.size)) [
  | inl full ↦ rw full table
  | inr room ↦
      let (t', (done, (order, _))) =
        put-Stored Itself t bytes hash value table (ground (arith, room)) e in
      subst (λ (o : Option KeySymbolTable). IsTable Itself (stored_in t o)) (sym done) order
]

-- Only a key without an escape is looked up.
looked_up :
    (escape enabled short : Bool) (slice : Option Bytes) (w : Bytes)
    → (if not escape && enabled && short then slice else none) ≡ some w
    → (escape ≡ false) × (slice ≡ some w)
looked_up true enabled short slice w e = ground (arith, e)
looked_up false true true slice w e = (refl, e)
looked_up false false short slice w e = ground (arith, e)
looked_up false true false slice w e = ground (arith, e)

module _ {F H : Type 0} (env : Env F H) (noted : H → List Bytes) (notes : IsNoting env.on noted)
    {bs : Bytes} (view : IsView env.input bs) where
  module _ (start end : ℕ) (le : start ≤ end) (le' : end ≤ length bs)
      (stop : Stops env.input end) where
    -- A key without an escape is its bytes.
    abbrev Right : Bytes → Type 0
    Right k = IsPlain env.input start end → k ≡ piece bs start end

    decoded_Reported :
        (m : Machine H)
        → m.tok.chars ≡ []
        → IsTable Itself m.keys
        → (f : ℕ → M H Bool)
        → ((u : ℕ) (x : Machine H)
            → x.handler ≡ m.handler
            → x.keys ≡ m.keys
            → Right x.tok.chars
            → Reported noted (noted m.handler) end Right (f u x))
        → Reported noted (noted m.handler) end Right (continue (decode_key env.input start end m) f)
    decoded_Reported m none_yet table f go =
        settled (decode_key env.input start end m) (decode_key-Bare env.input start end m)
          (λ plain. decode_key-Spelt view start end m none_yet le le' stop plain)
      where
        settled :
            (r : Result ℕ × Machine H)
            → Bare m r
            → (IsPlain env.input start end → Spelt (piece bs start end) r)
            → Reported noted (noted m.handler) end Right (continue r f)
        settled (ok u, x) kept spelt =
            go u x (ap (λ (y : Machine H). y.handler) kept) (ap (λ (y : Machine H). y.keys) kept)
              spelt
        settled (err e, x) kept spelt =
            subst (IsTable Itself) (sym (ap (λ (y : Machine H). y.keys) kept)) table

    chars_Reported :
        (said : List Bytes) (u : ℕ) (x : Machine H)
        → noted x.handler ≡ said
        → IsTable Itself x.keys
        → Right x.tok.chars
        → Reported noted said end Right (report_decoded env end u x)
    chars_Reported said u x same table right =
        subst (λ (w : List Bytes). Reported noted w end Right (report_decoded env end u x)) same
          (report_key-Reported env.on noted notes end Right x.tok.chars u
            (record x { consumed = end + 1 }) refl right table)

    intern-Reported :
        (bytes : Bytes) (hash : ℕ) (m : Machine H)
        → m.tok.chars ≡ []
        → IsTable Itself m.keys
        → bytes ≡ piece bs start end
        → IsPlain env.input start end
        → (found : Option Bytes) → lookup m.keys bytes hash ≡ found
        → Reported noted (noted m.handler) end Right (intern env start end bytes hash found m)
    intern-Reported bytes hash m none_yet table same plain (some w) found =
        let itself = lookup-IsTable Itself m.keys bytes w hash table found in
        report_key-Reported env.on noted notes end Right w (utf16_len w) _ refl
          (λ _. sym itself ∙ same) table
    intern-Reported bytes hash m none_yet table same plain none found =
        decoded_Reported m none_yet table _ (λ u x same_handler same_keys right.
          chars_Reported (noted m.handler) u
            (record x {
              keys = stored_in x.keys (put x.keys bytes hash x.tok.chars);
              tok = stop_interning x.tok;
            })
            (ap noted same_handler)
            (stored_in-IsTable x.keys bytes x.tok.chars hash
              (subst (IsTable Itself) (sym same_keys) table) (same ∙ sym (right plain)))
            right)

    with_bytes-Reported :
        (m : Machine H)
        → m.tok.chars ≡ []
        → IsTable Itself m.keys
        → (bytes : Option Bytes)
        → ((w : Bytes) → bytes ≡ some w → (w ≡ piece bs start end) × IsPlain env.input start end)
        → Reported noted (noted m.handler) end Right (with_bytes env start end bytes m)
    with_bytes-Reported m none_yet table none inside =
        decoded_Reported m none_yet table _ (λ u x same_handler same_keys right.
          chars_Reported (noted m.handler) u x (ap noted same_handler)
            (subst (IsTable Itself) (sym same_keys) table) right)
    with_bytes-Reported m none_yet table (some w) inside =
        let (same, plain) = inside w refl in
        intern-Reported w (fold_hash initial_hash w) _ none_yet table same plain
          (lookup m.keys w (fold_hash initial_hash w)) refl

  -- What a call has done: told one key more and consumed its closing quote, a key without a backslash exactly
  -- as its bytes; or nothing, the quote not being among the bytes. The table is in order, after an error too.
  abbrev pub Named : Machine H → Result Bool × Machine H → Type 0
  Named m (ok true, x) =
      (end : ℕ) × ((k : Bytes) × ((noted x.handler ≡ k ∷ noted m.handler)
          × ((m.consumed < end)
              × (Closes env.input (m.consumed + 1) end
                  × ((x.consumed ≡ end + 1)
                      × ((((j : ℕ) → m.consumed < j → j < end → env.input.at j ≢ b'\\')
                            → k ≡ piece bs (m.consumed + 1) end)
                          × IsTable Itself x.keys))))))
  Named m (ok false, x) =
      (x ≡ m) × ((end : ℕ) → end < env.input.len → ¬ Closes env.input (m.consumed + 1) end)
  Named m (err e, x) = IsTable Itself x.keys

  Reported-Named :
      (m : Machine H) (end : ℕ) (escape : Bool)
      → m.consumed + 1 ≤ end
      → env.input.at end ≡ b'"'
      → scan_key
          (env.input.len - (m.consumed + 1) + 1)
          env.input
          env.limits.max_name_length
          (m.consumed + 1)
          (m.consumed + 1)
          false
        ≡ closed_at end escape
      → (r : Result Bool × Machine H)
      → Reported noted
          (noted m.handler)
          end
          (λ k. IsPlain env.input (m.consumed + 1) end → k ≡ piece bs (m.consumed + 1) end)
          r
      → Named m r
  Reported-Named m end escape le quote scan (err e, x) table = table
  Reported-Named m end escape le quote scan (ok false, x) (wrong, _) = ground (arith, wrong)
  Reported-Named m end false le quote scan (ok true, x) (_, (k, (told, (at, (right, table))))) = (
    end,
    (
      k,
      (
        told,
        (
          omega (arith, le),
          (
            scan_key-Closes env.input env.limits.max_name_length (m.consumed + 1) end false _
                (m.consumed + 1) false scan,
            (
              at,
              (
                λ _. right (
                    scan_key-IsPlain _ env.input env.limits.max_name_length (m.consumed + 1)
                      (m.consumed + 1) end scan),
                table,
              ),
            ),
          ),
        ),
      ),
    ),
  )
  Reported-Named m end true le quote scan (ok true, x) (_, (k, (told, (at, (right, table))))) = (
    end,
    (
      k,
      (
        told,
        (
          omega (arith, le),
          (
            scan_key-Closes env.input env.limits.max_name_length (m.consumed + 1) end true _
                (m.consumed + 1) false scan,
            (
              at,
              (
                λ plain. absurd (
                    scan_key-backslash _ env.input env.limits.max_name_length (m.consumed + 1)
                      (m.consumed + 1) end scan (λ j low high. plain j (omega (arith, low)) high)),
                table,
              ),
            ),
          ),
        ),
      ),
    ),
  )

  closed_key-Named :
      (m : Machine H)
      → m.consumed < env.input.len
      → IsTable Itself m.keys
      → (r : KeyScan)
      → scan_key
          (env.input.len - (m.consumed + 1) + 1)
          env.input
          env.limits.max_name_length
          (m.consumed + 1)
          (m.consumed + 1)
          false
        ≡ r
      → Named m (closed_key env (m.consumed + 1) r m)
  unfolding ensure_chars
  closed_key-Named m inside table incomplete scan = (
    refl,
    λ end within.
        scan_key-open env.input env.limits.max_name_length (m.consumed + 1) end _ (m.consumed + 1)
          false scan (omega arith) within,
  )
  closed_key-Named m inside table (bad_key e) scan = table
  closed_key-Named m inside table (closed_at end escape) scan =
      let start = m.consumed + 1 in
      let (before, (within, quote)) =
        scan_key-closed env.input env.limits.max_name_length start end escape
          (env.input.len - start + 1) start false scan in
      let fits : end ≤ length bs = omega (arith, within, view.len_eq) in
      Reported-Named m end escape before quote scan _ (
        with_bytes-Reported start end before fits (λ h. ground (arith, quote)) _ refl table _
          (λ w is.
            let (no_escape, slice) = looked_up escape _ _ (env.input.contiguous start end) w is in
            (
              view.contiguous_eq start end before fits slice,
              scan_key-IsPlain _ env.input env.limits.max_name_length start start end (
                  subst
                    (λ (b : Bool).
                      scan_key (env.input.len - start + 1) env.input env.limits.max_name_length
                        start start false
                      ≡ closed_at end b)
                    no_escape scan),
            )))

  -- A call that starts at the opening quote of a key, in a machine whose table is in order, has told a handler
  -- that notes keys one key more and consumed its closing quote, where the key, if no backslash stands in it, is
  -- exactly its bytes, whether it was found in the table or decoded; or no closing quote is among the bytes
  -- received and nothing is changed; or it fails. The table is in order after it, after an error too.
  pub process_key-Named :
      (m : Machine H)
      → m.consumed < env.input.len
      → IsTable Itself m.keys
      → Named m (process_key env m)
  unfolding process_key
  process_key-Named m inside table = closed_key-Named m inside table _ refl

-- ===== src/Tokenizer/Delivery/Reporting.antt =====
-- A key as it is reported, of `report_key` in src/tokenizer.rs, to a handler that notes the keys.
use rjsonparser.Prelude.{ℕ, ◌+◌, ◌≡◌, refl, Bool, true, false, List, [], ◌∷◌, ◌++◌, Bytes}
use rjsonparser.Error.{Result, ok, err, new_text}
use rjsonparser.Exec.{continue, fail_if, pure}
use rjsonparser.Handler.{ContentHandler, Event, key}
use rjsonparser.Keys.Table.{IsTable}
use rjsonparser.Locator.{SharedLocator, add_column}
use rjsonparser.Tokenizer.Machine.{Tokenizer, Machine, M}
use rjsonparser.Tokenizer.ObjectKeys.{insert_key, contains, report_key}

-- The key in an event.
abbrev pub names : {F : Type 0} → Event F → List Bytes
names (key k) = k ∷ []
names _ = []

-- A handler that notes the keys it accepts, the last one in front.
pub record IsNoting {F H : Type 0} (on : ContentHandler F H) (noted : H → List Bytes) : Type 0 where
  pub notes :
      (e : Event F) (l : SharedLocator) (h : H)
      → (on.report e l h).0 ≡ ok tt
      → noted (on.report e l h).1 ≡ names e ++ noted h

-- The value that belongs to a key without an escape.
abbrev pub Itself : Bytes → Bytes → Type 0
Itself k v = k ≡ v

module _ {H : Type 0} (noted : H → List Bytes) where
  -- A key told, with something that holds of it, on top of the keys so far.
  abbrev pub Reported : List Bytes → ℕ → (Bytes → Type 0) → Result Bool × Machine H → Type 0
  Reported said end Q (ok b, x) =
      (b ≡ true)
      × ((k : Bytes) × ((noted x.handler ≡ k ∷ said)
            × ((x.consumed ≡ end + 1) × (Q k × IsTable Itself x.keys))))
  Reported said end Q (err e, x) = IsTable Itself x.keys

module _ {F H : Type 0} (on : ContentHandler F H) (noted : H → List Bytes)
    (notes : IsNoting on noted) where
  told_Reported :
      (end : ℕ) (Q : Bytes → Type 0) (k : Bytes) (m : Machine H)
      → m.consumed ≡ end + 1
      → Q k
      → IsTable Itself m.keys
      → (r : Result (Unit {0})) (h : H) → (r ≡ ok tt → noted h ≡ k ∷ noted m.handler)
      → Reported noted
          (noted m.handler)
          end
          Q
          (continue (r, record m { handler = h }) (λ _. pure true))
  told_Reported end Q k m at q table (ok u) h said = (refl, (k, (said refl, (at, (q, table)))))
  told_Reported end Q k m at q table (err e) h said = table

  insert_key-Reported :
      (said : List Bytes) (end : ℕ) (Q : Bytes → Type 0) (k : Bytes) (m : Machine H) (f : M H Bool)
      → IsTable Itself m.keys
      → ((t : Tokenizer) → Reported noted said end Q (f (record m { tok = t })))
      → (reject : Bool) (stack : List (List Bytes))
      → Reported noted said end Q (continue (insert_key reject stack k m) (λ _. f))
  insert_key-Reported said end Q k m f table go false stack = go m.tok
  insert_key-Reported said end Q k m f table go true [] = go m.tok
  insert_key-Reported said end Q k m f table go true (seen ∷ stack) = either (contains seen k)
    where
      either :
          (b : Bool)
          → Reported noted said end Q (
              continue
                (continue (fail_if b (new_text "Duplicate key: " k) m) (λ _ x. (
                  ok tt,
                  record x { tok = record x.tok { duplicate_key_stack = (k ∷ seen) ∷ stack } },
                )))
                (λ _. f))
      either true = table
      either false = go (record m.tok { duplicate_key_stack = (k ∷ seen) ∷ stack })

  pub report_key-Reported :
      (end : ℕ) (Q : Bytes → Type 0) (k : Bytes) (u : ℕ) (m : Machine H)
      → m.consumed ≡ end + 1
      → Q k
      → IsTable Itself m.keys
      → Reported noted (noted m.handler) end Q (report_key on k u m)
  unfolding report_key
  report_key-Reported end Q k u m at q table =
      let place = add_column m.locator (2 + u) in
      insert_key-Reported (noted m.handler) end Q k m _ table
        (λ t.
          told_Reported end Q k (record m { tok = t; locator = place }) at q table
            (on.report (key k) place m.handler).0 (on.report (key k) place m.handler).1
            (notes.notes (key k) place m.handler))
        m.tok.reject_duplicate_keys m.tok.duplicate_key_stack

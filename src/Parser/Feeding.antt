-- ===== src/Parser/Feeding.antt =====
-- `feed` and `receive` of the parser in src/parser.rs: what they leave in the ring, and how they count.
use rjsonparser.Prelude.{
  ℕ, ◌+◌, ◌≤◌, ◌<◌, ◌≡◌, refl, ap, ◌∙◌, inr, Bool, true, false, ◌&&◌, chosen, ==_iff, Option, none,
  some, Bytes, ltb, ◌==◌, if◌then◌else◌, length, length-drop, drop, arith, ◌⊎◌,
}
use rjsonparser.Error.{ParseError, Result, ok, err}
use rjsonparser.Float.{Float}
use rjsonparser.Handler.{ContentHandler}
use rjsonparser.Loopbuf.{Spans, IsView, LoopBuf, IsRing}
use rjsonparser.Parser.{
  Bom, need_more, skip, check_bom, bom_ef, bom_fe, bom_ff, bom_zero, Parser, Left, machine_of,
  env_for, run_tokenizer, after_bom, process, settle, counted, feed_within, feed,
  receive as receive_bytes,
}
use rjsonparser.Tokenizer.Machine.{Machine}
use rjsonparser.Tokenizer.Receive.{receive as tokenizer_receive}
use rjsonparser.Tokenizer.Reach.{Lands}
use rjsonparser.Tokenizer.Reach.Receiving.{receive-Inside}

pub check_bom-skip : (input : Spans) (n : ℕ) → check_bom input ≡ ok (skip n) → n ≤ input.len
unfolding check_bom bom_ef bom_fe bom_ff bom_zero
check_bom-skip input n e = ground (arith, e)

module _ {F H : Type 0} (float : Float F) (on : ContentHandler F H) where
  inside-le :
      (len : ℕ) (r : Result (Unit {0}) × Machine H)
      → Lands 0 len (λ _ at. (0 ≤ at) × (at ≤ len)) r
      → r.1.consumed ≤ len
  inside-le len (ok u, m) h = h.1
  inside-le len (err e, m) h = h.1

  run_tokenizer-le :
      (p : Parser H) (input : Spans) (bs : Bytes) (n : ℕ)
      → IsView input bs
      → (run_tokenizer float on p input n).1.1 ≤ n + input.len
  unfolding run_tokenizer
  run_tokenizer-le p input bs n view =
      let m = machine_of float on p in
      let r = tokenizer_receive (env_for float on p input) m in
      omega (
        arith,
        inside-le input.len r (receive-Inside (env_for float on p input) view m (omega arith)),
      )

  -- `process` uses no more bytes than there are.
  process-le :
      (skip_input : Spans → ℕ → Spans)
      → ((input : Spans) (bs : Bytes) (n : ℕ)
          → IsView input bs
          → n ≤ length bs
          → IsView (skip_input input n) (drop n bs))
      → (p : Parser H) (input : Spans) (bs : Bytes) → IsView input bs
      → (process float on skip_input p input).1.1 ≤ input.len
  unfolding process
  process-le skip_input law p input bs view =
      chosen p.checked_bom (λ (r : Result (Unit {0}) × (Parser H × ℕ)). r.1.1 ≤ input.len) _ _
        (λ _. omega (arith, run_tokenizer-le p input bs 0 view))
        (λ _. after_bom-le (check_bom input) refl)
    where
      after_bom-le :
          (r : Result Bom)
          → check_bom input ≡ r
          → (after_bom float on skip_input p input r).1.1 ≤ input.len
      after_bom-le (err e) q = omega arith
      after_bom-le (ok need_more) q = omega arith
      after_bom-le (ok (skip n)) q =
          let fits = check_bom-skip input n q in
          let rest : IsView (skip_input input n) (drop n bs) =
            law input bs n view (omega (arith, fits, view.len_eq)) in
          let used =
            run_tokenizer-le (record p { checked_bom = true }) (skip_input input n) (drop n bs) n
              rest in
          omega (arith, used, rest.len_eq, length-drop n bs, view.len_eq, fits)

has_room :
    (check_room : Bool) (n : ℕ) (full : Bool) (spare : ℕ)
    → full ≡ (spare == 0)
    → check_room ≡ true
    → (check_room && n == 0 && full) ≡ false
    → (0 < n) ⊎ (0 < spare)
has_room check_room n full spare e c b = ground (arith, e, c, b)

module _ {F H B : Type 0} (float : Float F) (on : ContentHandler F H) (ring : LoopBuf B)
    {contents : B → Bytes} (laws : IsRing ring contents) where
  -- The ring with some bytes at its front gone.
  abbrev pub Used : B → B → ℕ → Type 0
  Used buf rest n =
      (n ≤ length (contents buf))
      × ((contents rest ≡ drop n (contents buf)) × (ring.capacity rest ≡ ring.capacity buf))

  -- What `feed` leaves: on `Ok` it has counted what is left, and has used a byte or left room for one.
  abbrev pub Fed : Bool → B → Left H B → Type 0
  Fed check_room buf (ok u, (p, rest)) =
      (n : ℕ) × (Used buf rest n
        × ((p.unconsumed ≡ length (contents rest))
            × ((p.underflow ≡ ltb 0 (length (contents rest)))
                × (check_room ≡ true → (0 < n) ⊎ (0 < ring.spare_len rest)))))
  Fed check_room buf (err e, (p, rest)) = (n : ℕ) × Used buf rest n

  room-Fed :
      (buf rest : B) (n : ℕ)
      → Used buf rest n
      → (check_room b : Bool) (e : ParseError) (p : Parser H)
      → p.unconsumed ≡ length (contents rest)
      → p.underflow ≡ ltb 0 (length (contents rest))
      → (b ≡ false → check_room ≡ true → (0 < n) ⊎ (0 < ring.spare_len rest))
      → Fed check_room buf ((if b then err e else ok tt), (p, rest))
  room-Fed buf rest n used check_room true e p left under room = (n, used)
  room-Fed buf rest n used check_room false e p left under room =
      (n, (used, (left, (under, room refl))))

  settle-Fed :
      (check_room : Bool) (buf : B) (r : Result (Unit {0}) × (Parser H × ℕ))
      → r.1.1 ≤ length (contents buf)
      → Fed check_room buf (settle float on ring check_room buf r)
  settle-Fed check_room buf (err e, (p, consumed)) le =
      (consumed, (le, (laws.advance_eq buf consumed le, laws.advance_capacity buf consumed)))
  settle-Fed check_room buf (ok u, (p, consumed)) le =
      let used : Used buf (ring.advance buf consumed) consumed =
        (le, (laws.advance_eq buf consumed le, laws.advance_capacity buf consumed)) in
      let rest = ring.advance buf consumed in
      let room =
        λ (c : check_room ≡ true) (b : (check_room && consumed == 0 && ring.is_full rest) ≡ false).
          has_room check_room consumed (ring.is_full rest) (ring.spare_len rest) (laws.full_eq rest)
            c b in
      room-Fed buf rest consumed used check_room (check_room && consumed == 0 && ring.is_full rest)
        _ (record p { unconsumed = ring.len rest; underflow = ltb 0 (ring.len rest) })
        (laws.len_eq rest) (ap (ltb 0) (laws.len_eq rest)) (λ b c. room c b)

  process-le_ring :
      (p : Parser H) (buf : B)
      → (process float on ring.skip p (ring.spans buf)).1.1 ≤ length (contents buf)
  process-le_ring p buf =
      let view = laws.spans_view buf in
      omega (
        arith,
        process-le float on ring.skip laws.skip_view p (ring.spans buf) (contents buf) view,
        view.len_eq,
      )

  untouched : (buf : B) → Used buf buf 0
  untouched buf = (omega arith, (refl, refl))

  feed_within-Fed :
      (max : Option ℕ) (check_room : Bool) (p : Parser H) (buf : B)
      → Fed check_room buf (feed_within float on ring max check_room p buf)
  feed_within-Fed none check_room p buf =
      settle-Fed check_room buf (process float on ring.skip p (ring.spans buf))
        (process-le_ring p buf)
  feed_within-Fed (some max) check_room p buf =
      let q = counted float on ring p (ring.len buf) in
      chosen (ltb max q.document_length) (Fed check_room buf) _ _ (λ _. (0, untouched buf))
        (λ _.
          settle-Fed check_room buf (process float on ring.skip q (ring.spans buf))
            (process-le_ring q buf))

  -- The parser has counted the bytes that the last call left, and they are still in the ring.
  abbrev pub Counted : Parser H → B → Type 0
  Counted p buf = (p.unconsumed ≤ length (contents buf)) × (p.underflow ≡ ltb 0 p.unconsumed)

  empty-Fed :
      (check_room : Bool) (p : Parser H) (buf : B)
      → 0 < ring.capacity buf
      → Counted p buf
      → ring.len buf ≡ 0
      → Fed check_room buf (ok tt, (p, buf))
  empty-Fed check_room p buf room (le, under) none_left =
      let nothing : length (contents buf) ≡ 0 = omega (arith, laws.len_eq buf, none_left) in
      let left : p.unconsumed ≡ length (contents buf) = omega (arith, le, nothing) in
      (
        0,
        (
          untouched buf,
          (
            left,
            (under ∙ ap (ltb 0) left, λ _. inr (omega (arith, laws.spare_eq buf, nothing, room))),
          ),
        ),
      )

  pub feed-Fed :
      (check_room : Bool) (p : Parser H) (buf : B)
      → 0 < ring.capacity buf
      → Counted p buf
      → Fed check_room buf (feed float on ring check_room p buf)
  unfolding feed
  feed-Fed check_room p buf room counts =
      chosen (ring.len buf == 0) (Fed check_room buf) _ _
        (λ none_left.
          empty-Fed check_room p buf room counts ((==_iff (ring.len buf) 0).0 none_left))
        (λ _. feed_within-Fed p.limits.max_document_length check_room p buf)

  -- `receive` takes bytes from the front of the ring only, at most all that are there, and leaves its
  -- capacity, whatever the handler does and on every error; on `Ok` the parser has noted how many
  -- are left, and it has used a byte or left room in the ring, so that the caller can go on.
  pub receive-Fed :
      (p : Parser H) (buf : B)
      → 0 < ring.capacity buf
      → Counted p buf
      → Fed true buf (receive_bytes float on ring p buf)
  unfolding receive_bytes
  receive-Fed p buf room counts =
      chosen p.closed (Fed true buf) _ _ (λ _. (0, untouched buf))
        (λ _. feed-Fed true p buf room counts)

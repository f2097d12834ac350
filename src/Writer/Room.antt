-- ===== src/Writer/Room.antt =====
-- Appending a token whole or not at all, for any token whose length was computed rightly.
use Prim.Native.String.{String}
use rjsonparser.Prelude.{
  ℕ, ◌+◌, ◌≤◌, ◌<◌, ◌≡◌, refl, sym, ap, ◌∙◌, [], ◌∷◌, ◌++◌, Bytes, leb, ltb, if◌then◌else◌, length,
  length-append, append-nil, append_assoc, some, arith, le→leb,
}
use rjsonparser.Prelude.{Bool-cases, inl, inr}
use rjsonparser.Loopbuf.{LoopBuf, IsRing}
use rjsonparser.Writer.Encode.{Puts, scratch_size}
use rjsonparser.Writer.Write.{
  Writer, would_block, too_large, Outcome, wrote, failed, panicked, usize_end, scratch_puts,
  ring_puts, emit, write_token,
}

-- The bytes of a run of puts.
abbrev pub joined : Puts → Bytes
joined [] = []
joined (p ∷ puts) = p ++ joined puts

pub joined-append : (xs ys : Puts) → joined (xs ++ ys) ≡ joined xs ++ joined ys
joined-append [] ys = refl
joined-append (x ∷ xs) ys =
    ap (λ (t : Bytes). x ++ t) (joined-append xs ys) ∙ sym (append_assoc x (joined xs) (joined ys))

-- The scratch array takes a token of up to 64 bytes with no slice out of bounds.
scratch_puts-joined :
    (bytes : Bytes) (puts : Puts)
    → length bytes + length (joined puts) ≤ scratch_size
    → scratch_puts bytes puts ≡ some (bytes ++ joined puts)
unfolding scratch_puts
scratch_puts-joined bytes [] h = rw append-nil
scratch_puts-joined bytes (p ∷ puts) h =
    let sum = length-append p (joined puts) in
    rw (le→leb (length bytes + length p) scratch_size (omega arith)) (
      scratch_puts-joined (bytes ++ p) puts (omega (arith, length-append bytes p))
      ∙ rw append_assoc)

module _ {B : Type 0} (ring : LoopBuf B) (contents : B → Bytes) (laws : IsRing ring contents) where
  -- After a call the ring holds `text` more, and is as large as before.
  abbrev pub Holds : B → Bytes → B → Type 0
  Holds buf text buf' =
      (contents buf' ≡ contents buf ++ text) × (ring.capacity buf' ≡ ring.capacity buf)

  spare-le-capacity : (buf : B) → ring.spare_len buf ≤ ring.capacity buf
  spare-le-capacity buf = omega (arith, laws.spare_eq buf)

  extend-Holds :
      (buf : B) (text : Bytes)
      → length text ≤ ring.spare_len buf
      → Holds buf text (ring.extend_from_slice buf text)
  extend-Holds buf text h = (laws.extend_eq buf text h, laws.extend_capacity buf text h)

  spare-extend :
      (buf : B) (text : Bytes)
      → length text ≤ ring.spare_len buf
      → ring.spare_len (ring.extend_from_slice buf text) + length text ≡ ring.spare_len buf
  spare-extend buf text h =
      let (same, cap) = extend-Holds buf text h in
      omega (
        arith,
        laws.spare_eq buf,
        laws.spare_eq (ring.extend_from_slice buf text),
        cap,
        ap length same,
        length-append (contents buf) text,
      )

  pub ring_puts-Holds :
      (puts : Puts) (buf : B)
      → length (joined puts) ≤ ring.spare_len buf
      → Holds buf (joined puts) (ring_puts ring buf puts)
  ring_puts-Holds [] buf h = (rw append-nil, refl)
  ring_puts-Holds (p ∷ puts) buf h =
      let sum = length-append p (joined puts) in
      let (same, cap) = extend-Holds buf p (omega arith) in
      let (rest, cap') =
        ring_puts-Holds puts (ring.extend_from_slice buf p)
          (omega (arith, spare-extend buf p (omega arith))) in
      (rest ∙ rw (same, append_assoc), cap' ∙ cap)

  emit-Holds :
      (buf : B) (need : ℕ) (puts : Puts)
      → length (joined puts) ≡ need
      → need ≤ ring.spare_len buf
      → (buf' : B) × (emit ring buf need puts ≡ some buf') × Holds buf (joined puts) buf'
  unfolding emit
  emit-Holds buf need puts len room = elim (Bool-cases (leb need scratch_size)) [
    | inl small ↦ (
      ring.extend_from_slice buf (joined puts),
      rw (small) (rw (scratch_puts-joined [] puts (ground arith))),
      extend-Holds buf (joined puts) (omega arith),
    )
    | inr large ↦ (ring_puts ring buf puts, rw large, ring_puts-Holds puts buf (omega arith))
  ]

  -- What a method that writes the token `text` does: with room for it the ring gets the whole text and
  -- the writer its new state; without, ring and writer are left alone, and the error says whether
  -- draining the ring would help. Only where the text's length is no `usize` does it panic.
  pub record Atomic (w next : Writer) (buf : B) (what : String) (text : Bytes)
      (o : Outcome B (Unit {0})) : Type 0 where
    pub fits :
        length text ≤ ring.spare_len buf
        → (buf' : B) × (o ≡ wrote tt next buf') × Holds buf text buf'
    pub blocks :
        ring.spare_len buf < length text
        → length text ≤ ring.capacity buf
        → o ≡ failed would_block w buf
    pub never_fits :
        ring.capacity buf < length text
        → o ≡ (
            if ltb (length text) usize_end
            then failed (too_large what (length text) (ring.capacity buf)) w buf
            else panicked)

  pub write_token-Atomic :
      (w next : Writer) (buf : B) (need : ℕ) (what : String) (puts : Puts)
      → ring.capacity buf < usize_end
      → length (joined puts) ≡ need
      → Atomic w next buf what (joined puts) (write_token ring w next buf need what puts)
  unfolding write_token
  write_token-Atomic w next buf need what puts usable len = record {
    fits = λ room.
        (let (buf', e, held) = emit-Holds buf need puts len (omega arith) in
          (buf', ground (arith, e, spare-le-capacity buf), held));
    blocks = λ full small. ground arith;
    never_fits = λ big. ground (arith, spare-le-capacity buf);
  }

-- ===== src/Parser/Reading.antt =====
-- `parse` of src/parser.rs, over a source that ends: that it comes to its end, and that its ring never fills up.
use rjsonparser.Prelude.{ℕ, ◌+◌, ◌≤◌, ◌<◌, ◌≡◌, Option, some, [], ◌∷◌, Bytes, ltb, length}
use rjsonparser.Error.{ParseError, Result, ok, err}
use rjsonparser.Float.{Float}
use rjsonparser.Handler.{ContentHandler}
use rjsonparser.Loopbuf.{LoopBuf, Spans, IsRing}
use rjsonparser.Parser.{
  Parser, skip, check_bom, env_for, machine_of, receive as receive_bytes, close, Reader, result_of,
}
use rjsonparser.Tokenizer.Receive.{receive_body, receive as tokenizer_receive}
use rjsonparser.Tokenizer.Reach.Loops.{Halts}

-- A source that ends: a read gives no more bytes than are asked for, and there are fewer to come then.
pub record IsFinite {R : Type 0} (reader : Reader R) (size : R → ℕ) : Type 0 where
  pub read_le : (r : R) (n : ℕ) (bytes : Bytes) → (reader.read r n).0 ≡ ok bytes → length bytes ≤ n
  pub read_size :
      (r : R) (n : ℕ) (bytes : Bytes)
      → (reader.read r n).0 ≡ ok bytes
      → size (reader.read r n).1 + length bytes ≤ size r

module _ {F H B R : Type 0} (float : Float F) (on : ContentHandler F H) (ring : LoopBuf B)
    (reader : Reader R) where
  -- The tokenizer's loop comes to its end on these bytes.
  abbrev pub Tokenizes : Parser H → Spans → Type 1
  Tokenizes p input =
      Halts (λ next. receive_body next (env_for float on p input)) (machine_of float on p)
        (tokenizer_receive (env_for float on p input) (machine_of float on p))

  -- It does so on what the ring holds, all of it or behind the byte order mark.
  abbrev pub Feeds : Parser H → B → Type 1
  Feeds p buf =
      Tokenizes p (ring.spans buf)
      × ((n : ℕ)
          → check_bom (ring.spans buf) ≡ ok (skip n)
          → Tokenizes p (ring.skip (ring.spans buf) n))

  -- The loop of `parse`, without fuel: a read fails, or finds the end of the source, or brings bytes that are
  -- received. No run ends at a ring without room to read into.
  pub data Parses : R → Parser H → B → Result (Unit {0}) × Parser H → Type 1 where
    no_read :
        {r r' : R} {p : Parser H} {buf : B} {e : ParseError}
        → reader.read r (ring.spare_slice buf) ≡ (err e, r')
        → Parses r p buf (err e, p)
    at_end :
        {r r' : R} {p : Parser H} {buf : B}
        → reader.read r (ring.spare_slice buf) ≡ (ok [], r')
        → Feeds p buf
        → Parses r p buf (result_of float on ring reader (close float on ring p buf))
    refused :
        {r r' : R} {p q : Parser H} {buf rest : B} {b : ℕ} {bytes : Bytes} {e : ParseError}
        → reader.read r (ring.spare_slice buf) ≡ (ok (b ∷ bytes), r')
        → Feeds p (ring.commit_write buf (b ∷ bytes))
        → receive_bytes float on ring p (ring.commit_write buf (b ∷ bytes)) ≡ (err e, (q, rest))
        → Parses r p buf (err e, q)
    received :
        {r r' : R} {p q : Parser H} {buf rest : B} {b : ℕ} {bytes : Bytes}
        {res : Result (Unit {0}) × Parser H}
        → reader.read r (ring.spare_slice buf) ≡ (ok (b ∷ bytes), r')
        → Feeds p (ring.commit_write buf (b ∷ bytes))
        → receive_bytes float on ring p (ring.commit_write buf (b ∷ bytes)) ≡ (ok tt, (q, rest))
        → Parses r' q rest res
        → Parses r p buf res

  module _ {contents : B → Bytes} (laws : IsRing ring contents) {size : R → ℕ}
      (finite : IsFinite reader size) where
    -- Before a read: the parser has counted what is in the ring, and there is room in it.
    abbrev pub Ready : Parser H → B → Type 0
    Ready p buf =
        (p.unconsumed ≡ length (contents buf))
        × ((p.underflow ≡ ltb 0 p.unconsumed) × (0 < ring.spare_len buf))

    -- A run that the loop by fuel gives the result of.
    abbrev pub Ends : R → Parser H → B → Option (Result (Unit {0}) × Parser H) → Type 1
    Ends r p buf o = (res : Result (Unit {0}) × Parser H) × ((o ≡ some res) × Parses r p buf res)

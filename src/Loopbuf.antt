-- ===== src/Loopbuf.antt =====
-- The `loopbuf` crate, which is not part of this repository, as the code uses it.
-- `Spans` is a view of the ring's readable bytes, given by its methods; `IsView` is what its
-- documentation says of them for the bytes `bs` in the ring.
use rjsonparser.Prelude.{
  ℕ, Bool, ◌==◌, ◌-◌, ◌≤◌, ◌<◌, ◌≡◌, Option, some, ◌++◌, Bytes, length, get_or, take, drop, [], ◌+◌,
}

pub record Spans : Type 0 where
  pub len : ℕ
  -- `input[i]`
  pub at : ℕ → ℕ
  -- the bytes from a position up to the end of its contiguous span
  pub span_from : ℕ → Bytes
  -- `input.contiguous(from..to)`
  pub contiguous : ℕ → ℕ → Option Bytes

pub record IsView (input : Spans) (bs : Bytes) : Type 0 where
  pub len_eq : input.len ≡ length bs
  pub at_eq : (i : ℕ) → i < length bs → input.at i ≡ get_or bs i 0
  -- a span is not empty, and what stands behind it in the ring is `span_rest`
  pub span_pos : (i : ℕ) → i < length bs → 0 < length (input.span_from i)
  pub span_end : (i : ℕ) → length bs ≤ i → input.span_from i ≡ []
  pub span_rest : ℕ → Bytes
  pub span_eq : (i : ℕ) → i < length bs → input.span_from i ++ span_rest i ≡ drop i bs
  pub contiguous_eq :
      (i j : ℕ) {slice : Bytes}
      → i ≤ j
      → j ≤ length bs
      → input.contiguous i j ≡ some slice
      → slice ≡ take (j - i) (drop i bs)

-- The ring itself, by the operations that the code calls on it.
pub record LoopBuf (B : Type 0) : Type 0 where
  pub capacity : B → ℕ
  pub spare_len : B → ℕ
  pub len : B → ℕ
  pub spans : B → Spans
  pub is_full : B → Bool
  pub extend_from_slice : B → Bytes → B
  pub advance : B → ℕ → B
  -- `input.skip(n)`
  pub skip : Spans → ℕ → Spans
  pub with_capacity : ℕ → B
  -- the length of the first slice of `spare_capacity_mut`, and `commit_write` of what was written to it
  pub spare_slice : B → ℕ
  pub commit_write : B → Bytes → B

-- What its documentation says, for the readable bytes `contents`.
pub record IsRing {B : Type 0} (api : LoopBuf B) (contents : B → Bytes) : Type 0 where
  pub len_eq : (b : B) → api.len b ≡ length (contents b)
  pub spare_eq : (b : B) → api.spare_len b + length (contents b) ≡ api.capacity b
  pub spans_view : (b : B) → IsView (api.spans b) (contents b)
  pub extend_eq :
      (b : B) (bytes : Bytes)
      → length bytes ≤ api.spare_len b
      → contents (api.extend_from_slice b bytes) ≡ contents b ++ bytes
  pub extend_capacity :
      (b : B) (bytes : Bytes)
      → length bytes ≤ api.spare_len b
      → api.capacity (api.extend_from_slice b bytes) ≡ api.capacity b
  pub advance_eq :
      (b : B) (n : ℕ) → n ≤ length (contents b) → contents (api.advance b n) ≡ drop n (contents b)
  pub advance_capacity : (b : B) (n : ℕ) → api.capacity (api.advance b n) ≡ api.capacity b
  pub full_eq : (b : B) → api.is_full b ≡ (api.spare_len b == 0)
  pub skip_view :
      (input : Spans) (bs : Bytes) (n : ℕ)
      → IsView input bs
      → n ≤ length bs
      → IsView (api.skip input n) (drop n bs)
  pub empty_eq : (n : ℕ) → contents (api.with_capacity n) ≡ []
  pub empty_capacity : (n : ℕ) → api.capacity (api.with_capacity n) ≡ n
  pub slice_le : (b : B) → api.spare_slice b ≤ api.spare_len b
  pub slice_pos : (b : B) → 0 < api.spare_len b → 0 < api.spare_slice b
  pub commit_eq :
      (b : B) (bytes : Bytes)
      → length bytes ≤ api.spare_slice b
      → contents (api.commit_write b bytes) ≡ contents b ++ bytes
  pub commit_capacity :
      (b : B) (bytes : Bytes)
      → length bytes ≤ api.spare_slice b
      → api.capacity (api.commit_write b bytes) ≡ api.capacity b

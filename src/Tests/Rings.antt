-- ===== src/Tests/Rings.antt =====
-- Rings to run the model on, which keep what is required of the `loopbuf` crate.
use rjsonparser.Prelude.{
  ℕ, ap, sym, ◌∙◌, drop-drop, get_or-drop, ◌==◌, zero, suc, ◌+◌, ◌-◌, ◌≤◌, ◌≡◌, refl, min, [], ◌∷◌,
  ◌++◌, Bytes, length, length-append, length-drop, append-nil, get_or, take, drop, some, arith,
}
use rjsonparser.Loopbuf.{Spans, IsView, LoopBuf, IsRing}

-- All the bytes in one span.
abbrev pub whole : Bytes → Spans
whole bs = record {
  len = length bs;
  at = λ i. get_or bs i 0;
  span_from = λ i. drop i bs;
  contiguous = λ i j. some (take (j - i) (drop i bs));
}

drop_end : (i : ℕ) (bs : Bytes) → length bs ≤ i → drop i bs ≡ []
drop_end zero [] h = refl
drop_end (suc i) [] h = refl
drop_end zero (b ∷ bs) h = elim h [ ]
drop_end (suc i) (b ∷ bs) h = drop_end i bs (omega (arith, h))

some_eq : (a b : Bytes) → some a ≡ some b → b ≡ a
some_eq a b h = ground (arith, h)

pub whole-IsView : (bs : Bytes) → IsView (whole bs) bs
whole-IsView bs = record {
  len_eq = refl;
  at_eq = λ i h. refl;
  span_pos = λ i h. omega (arith, h, length-drop i bs);
  span_end = λ i h. drop_end i bs h;
  span_rest = λ i. [];
  span_eq = λ i h. append-nil (drop i bs);
  contiguous_eq = λ i j {slice} h k e. some_eq (take (j - i) (drop i bs)) slice e;
}

abbrev skipped : Spans → ℕ → Spans
skipped input n = record {
  len = input.len - n;
  at = λ i. input.at (n + i);
  span_from = λ i. input.span_from (n + i);
  contiguous = λ i j. input.contiguous (n + i) (n + j);
}

skipped-IsView :
    (input : Spans) (bs : Bytes) (n : ℕ)
    → IsView input bs
    → n ≤ length bs
    → IsView (skipped input n) (drop n bs)
skipped-IsView input bs n view h = record {
  len_eq = omega (arith, view.len_eq, length-drop n bs);
  at_eq = λ i k. view.at_eq (n + i) (omega (arith, k, length-drop n bs)) ∙ sym (get_or-drop n i bs);
  span_pos = λ i k. view.span_pos (n + i) (omega (arith, k, length-drop n bs));
  span_end = λ i k. view.span_end (n + i) (omega (arith, k, length-drop n bs));
  span_rest = λ i. view.span_rest (n + i);
  span_eq =
      λ i k. view.span_eq (n + i) (omega (arith, k, length-drop n bs)) ∙ sym (drop-drop i n bs);
  contiguous_eq = λ i j {slice} k l e.
      view.contiguous_eq (n + i) (n + j) (omega (arith, k)) (omega (arith, l, h, length-drop n bs))
        e
      ∙ (let size : n + j - (n + i) ≡ j - i = omega arith in
          ap (λ (m : ℕ). take m (drop (n + i) bs)) size
          ∙ ap (take (j - i)) (sym (drop-drop i n bs)));
}

-- A ring as its bytes and the number of its free bytes.
abbrev pub Buffer : Type 0
Buffer = Bytes × ℕ

abbrev pub held : Buffer → Bytes
held b = b.0

abbrev pub list_ring : LoopBuf Buffer
list_ring = record {
  capacity = λ b. b.1 + length b.0;
  spare_len = λ b. b.1;
  len = λ b. length b.0;
  spans = λ b. whole b.0;
  extend_from_slice = λ b bytes. (b.0 ++ bytes, b.1 - length bytes);
  advance = λ b n. (drop n b.0, b.1 + min n (length b.0));
  is_full = λ b. b.1 == 0;
  skip = skipped;
  with_capacity = λ n. ([], n);
  spare_slice = λ b. b.1;
  commit_write = λ b bytes. (b.0 ++ bytes, b.1 - length bytes);
}

pub list_ring-IsRing : IsRing list_ring held
list_ring-IsRing = record {
  len_eq = λ b. refl;
  spare_eq = λ b. refl;
  spans_view = λ b. whole-IsView b.0;
  extend_eq = λ b bytes h. refl;
  extend_capacity = λ b bytes h. omega (arith, h, length-append b.0 bytes);
  advance_eq = λ b n h. refl;
  advance_capacity = λ b n. omega (arith, length-drop n b.0);
  full_eq = λ b. refl;
  skip_view = skipped-IsView;
  empty_eq = λ n. refl;
  empty_capacity = λ n. omega arith;
  slice_le = λ b. omega arith;
  slice_pos = λ b h. h;
  commit_eq = λ b bytes h. refl;
  commit_capacity = λ b bytes h. omega (arith, h, length-append b.0 bytes);
}

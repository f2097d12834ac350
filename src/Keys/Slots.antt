-- ===== src/Keys/Slots.antt =====
-- The search for a free slot in src/keys.rs ends, in a table that is not full.
use Prim.Native.Nat.{bit_and}
use rjsonparser.Prelude.{
  ℕ, zero, suc, ◌+◌, ◌≤◌, ◌<◌, ◌≡◌, ◌≢◌, refl, ap, ◌∙◌, inl, inr, Bool, true, false, Bool-cases,
  Option, none, some, List, [], ◌∷◌, Bytes, length, get_or, set, replicate, arith, ltb, ltb→lt,
}
use mathlib.Core.Path.{subst}
use rjsonparser.Keys.{KeySymbolTable, is_some, next_slot, free_slot}
use rjsonparser.Keys.Masks.{IsMask, bit_and-same, bit_and-over}

-- How many slots are taken.
unfoldable pub taken_slots : List (Option Bytes) → ℕ
taken_slots [] = 0
taken_slots (none ∷ vs) = taken_slots vs
taken_slots (some v ∷ vs) = suc (taken_slots vs)

pub taken_slots-replicate : (n : ℕ) → taken_slots (replicate n none) ≡ 0
unfolding taken_slots
taken_slots-replicate zero = refl
taken_slots-replicate (suc n) = taken_slots-replicate n

pub taken_slots-set :
    (vs : List (Option Bytes)) (i : ℕ) (v : Bytes)
    → i < length vs
    → is_some (get_or vs i none) ≡ false
    → taken_slots (set vs i (some v)) ≡ suc (taken_slots vs)
unfolding taken_slots
taken_slots-set [] i v h free = elim h [ ]
taken_slots-set (none ∷ vs) zero v h free = refl
taken_slots-set (some w ∷ vs) zero v h free = ground (arith, free)
taken_slots-set (none ∷ vs) (suc i) v h free = taken_slots-set vs i v (omega (arith, h)) free
taken_slots-set (some w ∷ vs) (suc i) v h free =
    ap suc (taken_slots-set vs i v (omega (arith, h)) free)

taken_slots-all :
    (vs : List (Option Bytes))
    → ((i : ℕ) → i < length vs → is_some (get_or vs i none) ≡ true)
    → taken_slots vs ≡ length vs
unfolding taken_slots
taken_slots-all [] h = refl
taken_slots-all (none ∷ vs) h = ground (arith, h 0 (omega arith))
taken_slots-all (some v ∷ vs) h =
    ap suc (taken_slots-all vs (λ i lt. h (suc i) (omega (arith, lt))))

abbrev pub occupied : KeySymbolTable → ℕ → Bool
occupied t i = is_some (get_or t.values i none)

-- The slot behind one, and the first behind the last.
pub next_slot-inside :
    (t : KeySymbolTable) → IsMask t.mask → (i : ℕ) → i < t.mask → next_slot t i ≡ i + 1
next_slot-inside t mask i h = bit_and-same mask (i + 1) (omega (arith, h))

next_slot-last : (t : KeySymbolTable) → IsMask t.mask → (i : ℕ) → i ≡ t.mask → next_slot t i ≡ 0
next_slot-last t mask i e = ap (λ (k : ℕ). bit_and (k + 1) t.mask) e ∙ bit_and-over mask

-- Where a search has found none, all the slots that it has looked at are taken.
abbrev Seen : KeySymbolTable → ℕ → ℕ → Type 0
Seen t from rounds =
    (i : ℕ)
    → i ≤ t.mask
    → ((from ≤ i → i < from + rounds → occupied t i ≡ true)
        × (i < from → i + t.mask + 1 < from + rounds → occupied t i ≡ true))

free_slot-Seen :
    (t : KeySymbolTable)
    → IsMask t.mask
    → (rounds from : ℕ) → from ≤ t.mask
    → free_slot rounds t from ≡ none
    → Seen t from rounds
unfolding free_slot
free_slot-Seen t mask zero from le e =
    λ i h. (λ a b. absurd (omega (arith, a, b)), λ a b. absurd (omega (arith, a, b, le)))
free_slot-Seen t mask (suc rounds) from le e = elim (Bool-cases (occupied t from)) [
  | inr free ↦ absurd (ground (arith, e, free))
  | inl here ↦ elim (Bool-cases (ltb from t.mask)) [
    | inl inside ↦
        let next = next_slot-inside t mask from (ltb→lt from t.mask inside) in
        let rest =
          free_slot-Seen t mask rounds (from + 1) (ground (arith, inside))
            (subst (λ (k : ℕ). free_slot rounds t k ≡ none) next (ground (arith, e, here))) in
        λ i h. (
          λ a b. grind (arith, here, a, b, (rest i h).0),
          λ a b. (rest i h).1 (omega (arith, a)) (omega (arith, b)),
        )
    | inr last ↦
        let next = next_slot-last t mask from (ground (arith, last, le)) in
        let rest =
          free_slot-Seen t mask rounds 0 (omega arith)
            (subst (λ (k : ℕ). free_slot rounds t k ≡ none) next (ground (arith, e, here))) in
        λ i h. (
          λ a b. grind (arith, here, a, b, h, last, le),
          λ a b. (rest i h).0 (omega arith) (ground (arith, b, last, le)),
        )
  ]
]

-- In a table with a free slot the search finds one in as many rounds as there are slots.
pub free_slot-found :
    (t : KeySymbolTable)
    → IsMask t.mask
    → length t.values ≡ t.mask + 1
    → taken_slots t.values < t.mask + 1
    → (from : ℕ) → from ≤ t.mask
    → free_slot (t.mask + 1) t from ≢ none
free_slot-found t mask size room from le e =
    let seen = free_slot-Seen t mask (t.mask + 1) from le e in
    let full = taken_slots-all t.values (λ i h.
      let inside : i ≤ t.mask = omega (arith, h, size) in
      ground (arith, (seen i inside).0, (seen i inside).1, inside, le)) in
    omega (arith, full, size, room)

-- ===== src/Keys/Arrays.antt =====
-- One entry in the arrays of src/keys.rs: what a write keeps, and that a search finds it again.
use rjsonparser.Prelude.{
  ℕ, zero, suc, ◌+◌, ◌≤◌, ◌<◌, ◌≡◌, ◌≢◌, refl, sym, ap, ◌∙◌, inl, inr, Bool, true, false, ◌&&◌,
  Bool-cases, Option, none, some, List, [], ◌∷◌, Bytes, ◌==◌, ==_iff, eq_bytes_iff, if◌then◌else◌,
  length, length-set, get_or, set, arith,
}
use mathlib.Core.Path.{subst}
use rjsonparser.Keys.{KeySymbolTable, is_some, key_is, next_slot, free_slot, probe, store}
use rjsonparser.Keys.Masks.{IsMask, bit_and-le}
use rjsonparser.Keys.Slots.{taken_slots, taken_slots-set, occupied}

get_or-set_same :
    {A : Type 0} (xs : List A) (i : ℕ) (v d : A) → i < length xs → get_or (set xs i v) i d ≡ v
get_or-set_same [] i v d h = elim h [ ]
get_or-set_same (x ∷ xs) zero v d h = refl
get_or-set_same (x ∷ xs) (suc i) v d h = get_or-set_same xs i v d (omega (arith, h))

get_or-set_other :
    {A : Type 0} (xs : List A) (i j : ℕ) (v d : A) → i ≢ j → get_or (set xs i v) j d ≡ get_or xs j d
get_or-set_other [] i j v d h = refl
get_or-set_other (x ∷ xs) zero zero v d h = absurd (h refl)
get_or-set_other (x ∷ xs) zero (suc j) v d h = refl
get_or-set_other (x ∷ xs) (suc i) zero v d h = refl
get_or-set_other (x ∷ xs) (suc i) (suc j) v d h = get_or-set_other xs i j v d (λ e. h (ap suc e))

-- What belongs to a key: every value stands beside its key.
abbrev pub Sound : (Bytes → Bytes → Type 0) → List (Option Bytes) → List (Option Bytes) → Type 0
Sound P ks vs =
    (i : ℕ) (v : Bytes)
    → get_or vs i none ≡ some v
    → (k : Bytes) × ((get_or ks i none ≡ some k) × P k v)

-- The three arrays with some of their slots taken.
pub record IsArrays (P : Bytes → Bytes → Type 0) (n : ℕ) (t : KeySymbolTable) : Type 0 where
  pub mask_ones : IsMask t.mask
  pub hashes_len : length t.hashes ≡ t.mask + 1
  pub keys_len : length t.keys ≡ t.mask + 1
  pub values_len : length t.values ≡ t.mask + 1
  pub count : taken_slots t.values ≡ n
  pub sound : Sound P t.keys t.values

some_same : (v w : Bytes) → some v ≡ some w → v ≡ w
some_same v w e = ground (arith, e)

module _ (P : Bytes → Bytes → Type 0) where
  written_over :
      (ks vs : List (Option Bytes)) (idx i : ℕ) (k v w : Bytes)
      → idx < length ks
      → idx < length vs
      → idx ≡ i
      → get_or (set vs idx (some v)) i none ≡ some w
      → P k v
      → (k' : Bytes) × ((get_or (set ks idx (some k)) i none ≡ some k') × P k' w)
  written_over ks vs idx i k v w inside inside' same e p =
      let here = λ (xs : List (Option Bytes)) (x : Bytes) (lt : idx < length xs).
        ap (λ (j : ℕ). get_or (set xs idx (some x)) j none) (sym same)
        ∙ get_or-set_same xs idx (some x) none lt in
      (k, (here ks k inside, subst (P k) (some_same v w (sym (here vs v inside') ∙ e)) p))

  store-Sound :
      (ks vs : List (Option Bytes)) (idx : ℕ) (k v : Bytes)
      → idx < length ks
      → idx < length vs
      → Sound P ks vs
      → P k v
      → Sound P (set ks idx (some k)) (set vs idx (some v))
  store-Sound ks vs idx k v inside inside' sound p i w e = elim (Bool-cases (idx == i)) [
    | inl same ↦ written_over ks vs idx i k v w inside inside' ((==_iff idx i).0 same) e p
    | inr other ↦
        let apart : idx ≢ i = λ q. ground (arith, other, q) in
        let (k', (at_key, p')) =
          sound i w (sym (get_or-set_other vs idx i (some v) none apart) ∙ e) in
        (k', (get_or-set_other ks idx i (some k) none apart ∙ at_key, p'))
  ]

  pub store-IsArrays :
      (n : ℕ) (t : KeySymbolTable) (idx hash : ℕ) (k v : Bytes)
      → IsArrays P n t
      → idx ≤ t.mask
      → occupied t idx ≡ false
      → P k v
      → IsArrays P (suc n) (store t idx hash k v)
  unfolding store
  store-IsArrays n t idx hash k v arrays le free p = record {
    mask_ones = arrays.mask_ones;
    hashes_len = length-set t.hashes idx hash ∙ arrays.hashes_len;
    keys_len = length-set t.keys idx (some k) ∙ arrays.keys_len;
    values_len = length-set t.values idx (some v) ∙ arrays.values_len;
    count =
        taken_slots-set t.values idx v (omega (arith, le, arrays.values_len)) free
        ∙ ap suc arrays.count;
    sound =
        store-Sound t.keys t.values idx k v (omega (arith, le, arrays.keys_len))
          (omega (arith, le, arrays.values_len)) arrays.sound p;
  }

-- The slot found is free and one of the table's.
pub free_slot-free :
    (t : KeySymbolTable)
    → IsMask t.mask
    → (rounds from idx : ℕ) → from ≤ t.mask
    → free_slot rounds t from ≡ some idx
    → (idx ≤ t.mask) × (occupied t idx ≡ false)
unfolding free_slot
free_slot-free t mask zero from idx le e = ground (arith, e)
free_slot-free t mask (suc rounds) from idx le e = elim (Bool-cases (occupied t from)) [
  | inl here ↦
      free_slot-free t mask rounds (next_slot t from) idx (bit_and-le mask (from + 1))
        (ground (arith, e, here))
  | inr free ↦
      let same : from ≡ idx = ground (arith, e, free) in
      subst (λ (x : ℕ). (x ≤ t.mask) × (occupied t x ≡ false)) same (le, free)
]

key_is-same : (o : Option Bytes) (k' k : Bytes) → o ≡ some k' → key_is o k ≡ true → k' ≡ k
key_is-same o k' k e keyed =
    (eq_bytes_iff k' k).0 (sym (ap (λ (x : Option Bytes). key_is x k) e) ∙ keyed)

-- The value at a slot that matches belongs to the key.
pub probe-Sound :
    (P : Bytes → Bytes → Type 0) (t : KeySymbolTable)
    → Sound P t.keys t.values
    → (rounds from hash : ℕ) (k w : Bytes) → probe rounds t k hash from ≡ some w
    → P k w
unfolding probe
probe-Sound P t sound zero from hash k w e = ground (arith, e)
probe-Sound P t sound (suc rounds) from hash k w e = elim (Bool-cases (occupied t from)) [
  | inr free ↦ absurd (ground (arith, e, free))
  | inl here ↦
      elim (Bool-cases (get_or t.hashes from 0 == hash && key_is (get_or t.keys from none) k)) [
        | inr differs ↦
            probe-Sound P t sound rounds (next_slot t from) hash k w
              (ground (arith, e, here, differs))
        | inl matches ↦
            let (k', (at_key, p)) = sound from w (ground (arith, e, here, matches)) in
            let keyed : key_is (get_or t.keys from none) k ≡ true = ground (arith, matches) in
            subst (λ (x : Bytes). P x w) (key_is-same (get_or t.keys from none) k' k at_key keyed) p
      ]
]

-- What a write puts at a slot, and leaves at the others.
store-probe_here :
    (t : KeySymbolTable) (idx hash : ℕ) (k v : Bytes) (rounds : ℕ)
    → idx < length t.hashes
    → idx < length t.keys
    → idx < length t.values
    → probe (suc rounds) (store t idx hash k v) k hash idx ≡ some v
unfolding probe store
store-probe_here t idx hash k v rounds h1 h2 h3 =
    rw
      (
        get_or-set_same t.values idx (some v) none h3,
        get_or-set_same t.keys idx (some k) none h2,
        get_or-set_same t.hashes idx hash 0 h1,
      )
      (ground (arith, (eq_bytes_iff k k).1 refl))

store-values_other :
    (t : KeySymbolTable) (idx i hash : ℕ) (k v : Bytes)
    → idx ≢ i
    → get_or (store t idx hash k v).values i none ≡ get_or t.values i none
unfolding store
store-values_other t idx i hash k v apart = get_or-set_other t.values idx i (some v) none apart

store-next_slot :
    (t : KeySymbolTable) (idx i hash : ℕ) (k v : Bytes)
    → next_slot (store t idx hash k v) i ≡ next_slot t i
unfolding store
store-next_slot t idx i hash k v = refl

-- A step over a slot that is taken.
step_on :
    (o : Option Bytes) (matches : Bool) {rest : Option Bytes}
    → is_some o ≡ true
    → (w : Bytes) × (rest ≡ some w)
    → (w : Bytes) × ((if is_some o then (if matches then o else rest) else none) ≡ some w)
step_on none matches here next = absurd (ground (arith, here))
step_on (some w) true here next = (w, refl)
step_on (some w) false here next = next

-- Searching a key finds a value where a free slot was found for it and written.
pub free_slot-probe :
    (P : Bytes → Bytes → Type 0) (n : ℕ) (t : KeySymbolTable) (idx hash : ℕ) (k v : Bytes)
    → IsArrays P n t
    → idx ≤ t.mask
    → (rounds from : ℕ) → from ≤ t.mask
    → free_slot rounds t from ≡ some idx
    → (w : Bytes) × (probe rounds (store t idx hash k v) k hash from ≡ some w)
unfolding free_slot probe
free_slot-probe P n t idx hash k v arrays inside zero from le e = absurd (ground (arith, e))
free_slot-probe P n t idx hash k v arrays inside (suc rounds) from le e =
    elim (Bool-cases (occupied t from)) [
      | inr free ↦
          let same : from ≡ idx = ground (arith, e, free) in
          (
            v,
            ap (probe (suc rounds) (store t idx hash k v) k hash) same
                ∙ store-probe_here t idx hash k v rounds (omega (arith, inside, arrays.hashes_len))
                    (omega (arith, inside, arrays.keys_len))
                    (omega (arith, inside, arrays.values_len)),
          )
      | inl here ↦
          let mask = arrays.mask_ones in
          let free = (free_slot-free t mask (suc rounds) from idx le e).1 in
          let apart : idx ≢ from = λ q. ground (arith, ap (occupied t) q, here, free) in
          let still : get_or (store t idx hash k v).values from none ≡ get_or t.values from none =
            store-values_other t idx from hash k v apart in
          let next =
            free_slot-probe P n t idx hash k v arrays inside rounds (next_slot t from)
              (bit_and-le mask (from + 1)) (ground (arith, e, here)) in
          rw still (
            step_on (get_or t.values from none)
              ((get_or (store t idx hash k v).hashes from 0 == hash)
                && key_is (get_or (store t idx hash k v).keys from none) k)
              here
              (
                next.0,
                ap (probe rounds (store t idx hash k v) k hash)
                      (store-next_slot t idx from hash k v)
                    ∙ next.1,
              ))
    ]

-- The count of the entries plays no part in a search.
pub probe-size :
    (t : KeySymbolTable) (size rounds from hash : ℕ) (k : Bytes)
    → probe rounds (record t { size = size }) k hash from ≡ probe rounds t k hash from
unfolding probe
probe-size t size zero from hash k = refl
probe-size t size (suc rounds) from hash k =
    ground (arith, probe-size t size rounds (next_slot t from) hash k)

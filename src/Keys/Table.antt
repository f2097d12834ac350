-- ===== src/Keys/Table.antt =====
-- The table of src/keys.rs: `put` always finds a slot, and `lookup` then finds what belongs to the key.
use Prim.Native.Nat.{bit_and}
use rjsonparser.Prelude.{
  ℕ, zero, suc, ◌+◌, ◌-◌, ◌*◌, ◌/◌, ◌≤◌, ◌<◌, ◌≡◌, refl, sym, ap, ◌∙◌, inl, inr, false, Bool-cases,
  Option, Option-cases, none, some, List, [], ◌∷◌, Bytes, leb, if◌then◌else◌, length,
  length-replicate, get_or, replicate, arith,
}
use mathlib.Core.Path.{subst}
use rjsonparser.Keys.{
  KeySymbolTable, max_entries, allocate, new_table, free_slot, lookup, store, place, and_then,
  unwrap_or_default, rehash, grow, put,
}
use rjsonparser.Keys.Arrays.{
  Sound, IsArrays, store-IsArrays, free_slot-free, probe-Sound, free_slot-probe, probe-size,
}
use rjsonparser.Keys.Masks.{IsMask, no_digits, one_more, bit_and-le}
use rjsonparser.Keys.Slots.{taken_slots, taken_slots-replicate, free_slot-found}

get_or-replicate : (n i : ℕ) → get_or {A = Option Bytes} (replicate n none) i none ≡ none
get_or-replicate zero i = refl
get_or-replicate (suc n) zero = refl
get_or-replicate (suc n) (suc i) = get_or-replicate n i

place-store :
    (t : KeySymbolTable) (idx hash : ℕ) (k v : Bytes)
    → free_slot (t.mask + 1) t (bit_and hash t.mask) ≡ some idx
    → place t hash k v ≡ some (store t idx hash k v)
unfolding place
place-store t idx hash k v found = ground (arith, found)

allocate-mask : (t : KeySymbolTable) → (allocate ((t.mask + 1) * 2) t).mask ≡ (t.mask + 1) * 2 - 1
unfolding allocate
allocate-mask t = refl

allocate-size : (t : KeySymbolTable) → (allocate ((t.mask + 1) * 2) t).size ≡ t.size
unfolding allocate
allocate-size t = refl

lookup-size :
    (t : KeySymbolTable) (size : ℕ) (k : Bytes) (hash : ℕ)
    → lookup (record t { size = size }) k hash ≡ lookup t k hash
unfolding lookup
lookup-size t size k hash = probe-size t size (t.mask + 1) (bit_and hash t.mask) hash k

module _ (P : Bytes → Bytes → Type 0) where
  -- The table as the operations leave it: a quarter of the slots is free.
  pub record IsTable (t : KeySymbolTable) : Type 0 where
    pub arrays : IsArrays P t.size t
    pub slots : 3 ≤ t.mask
    pub room : t.size + (t.mask + 1) / 4 ≤ t.mask + 1

  -- A table with one more entry, at the capacity that it had.
  abbrev Placed : ℕ → KeySymbolTable → KeySymbolTable → Bytes → ℕ → Type 0
  Placed n t t' k hash =
      IsArrays P n t'
      × ((t'.mask ≡ t.mask) × ((t'.size ≡ t.size) × ((w : Bytes) × (lookup t' k hash ≡ some w))))

  store-Placed :
      (n : ℕ) (t : KeySymbolTable) (idx hash : ℕ) (k v : Bytes)
      → IsArrays P n t
      → P k v
      → free_slot (t.mask + 1) t (bit_and hash t.mask) ≡ some idx
      → Placed (suc n) t (store t idx hash k v) k hash
  unfolding store lookup
  store-Placed n t idx hash k v arrays p e =
      let start = bit_and-le arrays.mask_ones hash in
      let at = free_slot-free t arrays.mask_ones (t.mask + 1) (bit_and hash t.mask) idx start e in
      (
        store-IsArrays P n t idx hash k v arrays at.0 at.1 p,
        (
          refl,
          (
            refl,
            free_slot-probe P n t idx hash k v arrays at.0 (t.mask + 1) (bit_and hash t.mask) start
                e,
          ),
        ),
      )

  place-Placed :
      (n : ℕ) (t : KeySymbolTable) (hash : ℕ) (k v : Bytes)
      → IsArrays P n t
      → n < t.mask + 1
      → P k v
      → (t' : KeySymbolTable) × ((place t hash k v ≡ some t') × Placed (suc n) t t' k hash)
  place-Placed n t hash k v arrays room p =
      elim (Option-cases (free_slot (t.mask + 1) t (bit_and hash t.mask))) [
        | inl none_free ↦ absurd (
            free_slot-found t arrays.mask_ones arrays.values_len (omega (arith, arrays.count, room))
              (bit_and hash t.mask) (bit_and-le arrays.mask_ones hash) none_free)
        | inr (idx, found) ↦ (
          store t idx hash k v,
          (place-store t idx hash k v found, store-Placed n t idx hash k v arrays p found),
        )
      ]

  Sound-tail :
      (k : Option Bytes) (ks : List (Option Bytes)) (v : Option Bytes) (vs : List (Option Bytes))
      → Sound P (k ∷ ks) (v ∷ vs)
      → Sound P ks vs
  Sound-tail k ks v vs sound i w e = sound (suc i) w e

  -- The entries of the old arrays that are left go into the new ones.
  rehash-IsArrays :
      (hs : List ℕ) (ks vs : List (Option Bytes)) (t : KeySymbolTable) (n : ℕ)
      → length hs ≡ length ks
      → length ks ≡ length vs
      → Sound P ks vs
      → IsArrays P n t
      → n + taken_slots vs ≤ t.mask
      → (t' : KeySymbolTable) × ((rehash hs ks vs t ≡ some t')
          × (IsArrays P (n + taken_slots vs) t' × ((t'.mask ≡ t.mask) × (t'.size ≡ t.size))))
  unfolding rehash taken_slots
  rehash-IsArrays [] [] [] t n e e' sound arrays room =
      let all : n ≡ n + 0 = omega arith in
      (t, (refl, (subst (λ (x : ℕ). IsArrays P x t) all arrays, (refl, refl))))
  rehash-IsArrays (h ∷ hs) (k ∷ ks) (none ∷ vs) t n e e' sound arrays room =
      rehash-IsArrays hs ks vs t n (omega (arith, e)) (omega (arith, e'))
        (Sound-tail k ks none vs sound) arrays room
  rehash-IsArrays (h ∷ hs) (k ∷ ks) (some v ∷ vs) t n e e' sound arrays room =
      let (k', (at_key, p)) = sound 0 v refl in
      let (t1, (placed, (arrays1, (mask1, (size1, _))))) =
        place-Placed n t h k' v arrays (omega (arith, room)) p in
      let (t2, (done, (arrays2, (mask2, size2)))) =
        rehash-IsArrays hs ks vs t1 (suc n) (omega (arith, e)) (omega (arith, e'))
          (Sound-tail k ks (some v) vs sound) arrays1 (omega (arith, room, mask1)) in
      let all : suc n + taken_slots vs ≡ n + suc (taken_slots vs) = omega arith in
      (
        t2,
        (
          ap (λ (x : Bytes). and_then (place t h x v) (rehash hs ks vs))
                (ap unwrap_or_default at_key)
              ∙ ap (λ (o : Option KeySymbolTable). and_then o (rehash hs ks vs)) placed
              ∙ done,
          (subst (λ (x : ℕ). IsArrays P x t2) all arrays2, (mask2 ∙ mask1, size2 ∙ size1)),
        ),
      )
  rehash-IsArrays [] [] (v ∷ vs) t n e e' sound arrays room = absurd (omega (arith, e'))
  rehash-IsArrays [] (k ∷ ks) vs t n e e' sound arrays room = absurd (omega (arith, e))
  rehash-IsArrays (h ∷ hs) [] vs t n e e' sound arrays room = absurd (omega (arith, e))
  rehash-IsArrays (h ∷ hs) (k ∷ ks) [] t n e e' sound arrays room = absurd (omega (arith, e'))

  -- Arrays without an entry.
  allocate-IsArrays :
      (t : KeySymbolTable) (mask : ℕ) → IsMask mask → IsArrays P 0 (allocate (mask + 1) t)
  unfolding allocate
  allocate-IsArrays t mask ones =
      let less : mask + 1 - 1 ≡ mask = omega arith in
      record {
        mask_ones = subst IsMask (sym less) ones;
        hashes_len = omega (arith, length-replicate {A = ℕ} (mask + 1) 0);
        keys_len = omega (arith, length-replicate {A = Option Bytes} (mask + 1) none);
        values_len = omega (arith, length-replicate {A = Option Bytes} (mask + 1) none);
        count = taken_slots-replicate (mask + 1);
        sound = λ i v e. absurd (ground (arith, e, get_or-replicate (mask + 1) i));
      }

  -- A new table holds nothing.
  pub new_table-IsTable : IsTable new_table
  unfolding new_table allocate
  new_table-IsTable = record {
    arrays =
        allocate-IsArrays (record { hashes = []; keys = []; values = []; size = 0; mask = 0 }) 63
          (one_more (one_more (one_more (one_more (one_more (one_more no_digits))))));
    slots = omega arith;
    room = omega arith;
  }

  -- A table that has grown, with what it held.
  abbrev Grown : KeySymbolTable → KeySymbolTable → Type 0
  Grown t r =
      IsArrays P t.size r
      × ((r.size ≡ t.size) × ((3 ≤ r.mask) × (t.size + 1 + (r.mask + 1) / 4 ≤ r.mask + 1)))

  grow-Grown :
      (t : KeySymbolTable) → IsTable t → (r : KeySymbolTable) × ((grow t ≡ some r) × Grown t r)
  unfolding grow
  grow-Grown t table =
      let a = table.arrays in
      let double : (t.mask + 1) * 2 ≡ 2 * t.mask + 1 + 1 = omega arith in
      let fresh : IsArrays P 0 (allocate ((t.mask + 1) * 2) t) =
        subst (λ (x : ℕ). IsArrays P 0 (allocate x t)) (sym double)
          (allocate-IsArrays t (2 * t.mask + 1) (one_more a.mask_ones)) in
      let wide : (allocate ((t.mask + 1) * 2) t).mask ≡ 2 * t.mask + 1 =
        allocate-mask t ∙ omega arith in
      let (r, (done, (arrays, (mask, size)))) =
        rehash-IsArrays t.hashes t.keys t.values (allocate ((t.mask + 1) * 2) t) 0
          (a.hashes_len ∙ sym a.keys_len) (a.keys_len ∙ sym a.values_len) a.sound fresh
          (omega (arith, a.count, table.room, wide)) in
      let held : 0 + taken_slots t.values ≡ t.size = omega (arith, a.count) in
      (
        r,
        (
          done,
          (
            subst (λ (x : ℕ). IsArrays P x r) held arrays,
            (
              size ∙ allocate-size t,
              (
                omega (arith, mask, wide, table.slots),
                omega (arith, mask, wide, table.room, table.slots),
              ),
            ),
          ),
        ),
      )

  -- The table after `put`: in order, with one more entry, and a value that belongs to the key is found.
  abbrev pub Stored : KeySymbolTable → Bytes → ℕ → Bytes → Type 0
  Stored t bytes hash value =
      (t' : KeySymbolTable) × ((put t bytes hash value ≡ some t')
        × (IsTable t'
            × ((t'.size ≡ suc t.size)
                × ((w : Bytes) × ((lookup t' bytes hash ≡ some w) × P bytes w)))))

  roomy :
      (t : KeySymbolTable)
      → IsTable t
      → (r : KeySymbolTable) × (((if leb (t.mask + 1 - (t.mask + 1) / 4) t.size
              then grow t
              else some t)
            ≡ some r)
          × Grown t r)
  roomy t table = elim (Bool-cases (leb (t.mask + 1 - (t.mask + 1) / 4) t.size)) [
    | inl crowded ↦ rw crowded (grow-Grown t table)
    | inr spare ↦
        rw spare
          (t, (refl, (table.arrays, (refl, (table.slots, ground (arith, spare, table.room))))))
  ]

  lookup-sound_arrays :
      (t : KeySymbolTable)
      → Sound P t.keys t.values
      → (hash : ℕ) (k w : Bytes) → lookup t k hash ≡ some w
      → P k w
  unfolding lookup
  lookup-sound_arrays t sound hash k w e =
      probe-Sound P t sound (t.mask + 1) (bit_and hash t.mask) hash k w e

  resized :
      (n size : ℕ) (t : KeySymbolTable) → IsArrays P n t → IsArrays P n (record t { size = size })
  resized n size t a = record {
    mask_ones = a.mask_ones;
    hashes_len = a.hashes_len;
    keys_len = a.keys_len;
    values_len = a.values_len;
    count = a.count;
    sound = a.sound;
  }

  counted-Stored :
      (t w : KeySymbolTable) (k : Bytes) (hash : ℕ)
      → Grown t w
      → (t' : KeySymbolTable) → Placed (suc t.size) w t' k hash
      → IsTable (record t' { size = t'.size + 1 })
        × ((t'.size + 1 ≡ suc t.size)
            × ((x : Bytes) × ((lookup (record t' { size = t'.size + 1 }) k hash ≡ some x) × P k x)))
  counted-Stored t w k hash (_, (size, (slots, room))) t' (arrays, (mask', (size', (x, found)))) =
      let total : suc t.size ≡ t'.size + 1 = omega (arith, size, size') in
      let again = lookup-size t' (t'.size + 1) k hash ∙ found in
      (
        record {
          arrays =
              resized (t'.size + 1) (t'.size + 1) t'
                (subst (λ (n : ℕ). IsArrays P n t') total arrays);
          slots = omega (arith, slots, mask');
          room = omega (arith, room, mask', total);
        },
        (sym total, (x, (again, lookup-sound_arrays t' arrays.sound hash k x found))),
      )

  -- In a table in order with fewer entries than it may have, `put` finds a free slot, after growing the table
  -- where three quarters are taken, so that its search ends; the table is then in order with one more entry,
  -- and looking the key up finds a value that belongs to it.
  pub put-Stored :
      (t : KeySymbolTable) (bytes : Bytes) (hash : ℕ) (value : Bytes)
      → IsTable t
      → t.size < max_entries
      → P bytes value
      → Stored t bytes hash value
  unfolding put
  put-Stored t bytes hash value table few p =
      let (r, (roomed, grown)) = roomy t table in
      let (t', (placed, holds)) =
        place-Placed t.size r hash bytes value grown.0 (omega (arith, grown.1.1.1)) p in
      let few_left : leb max_entries t.size ≡ false = ground (arith, few) in
      (
        record t' { size = t'.size + 1 },
        (rw few_left (rw (roomed, placed) refl), counted-Stored t r bytes hash grown t' holds),
      )

  -- Whatever `lookup` finds for a key in a table in order belongs to the key, whatever the hashes are: two keys
  -- with one hash are not mixed up.
  pub lookup-IsTable :
      (t : KeySymbolTable) (bytes found : Bytes) (hash : ℕ)
      → IsTable t
      → lookup t bytes hash ≡ some found
      → P bytes found
  lookup-IsTable t bytes found hash table e =
      lookup-sound_arrays t table.arrays.sound hash bytes found e

-- ===== src/Keys.antt =====
-- src/keys.rs: the key interning table, open addressing over three parallel arrays of one length.
pub mod Masks
pub mod Slots
pub mod Arrays
pub mod Table
use Prim.Native.Nat.{bit_and, bit_xor}
use rjsonparser.Prelude.{
  ℕ, zero, suc, ◌+◌, ◌-◌, ◌*◌, ◌/◌, ◌%◌, ◌^◌, Bool, true, false, ◌&&◌, Option, none, some, List, [],
  ◌∷◌, Bytes, leb, ◌==◌, if◌then◌else◌, get_or, set, replicate, eq_bytes,
}

abbrev fnv_offset_basis : ℕ
fnv_offset_basis = 0x811c_9dc5

abbrev fnv_prime : ℕ
fnv_prime = 0x0100_0193

abbrev pub max_entries : ℕ
max_entries = 10_000

abbrev default_capacity : ℕ
default_capacity = 64

abbrev pub max_key_bytes : ℕ
max_key_bytes = 64

pub record KeySymbolTable : Type 0 where
  pub hashes : List ℕ
  pub keys : List (Option Bytes)
  pub values : List (Option Bytes)
  pub size : ℕ
  pub mask : ℕ

unfoldable pub allocate : ℕ → KeySymbolTable → KeySymbolTable
allocate capacity t = record t {
  hashes = replicate capacity 0;
  keys = replicate capacity none;
  values = replicate capacity none;
  mask = capacity - 1;
}

unfoldable pub new_table : KeySymbolTable
unfolding allocate
new_table =
    allocate default_capacity (record { hashes = []; keys = []; values = []; size = 0; mask = 0 })

abbrev pub initial_hash : ℕ
initial_hash = fnv_offset_basis

unfoldable pub hash_byte : ℕ → ℕ → ℕ
hash_byte hash b = bit_xor hash b * fnv_prime % 2 ^ 32

abbrev pub is_some : Option Bytes → Bool
is_some none = false
is_some (some v) = true

-- `self.keys[idx]` is there and equals `bytes`
abbrev pub key_is : Option Bytes → Bytes → Bool
key_is none bytes = false
key_is (some k) bytes = eq_bytes k bytes

-- `(idx + 1) & self.mask`
abbrev pub next_slot : KeySymbolTable → ℕ → ℕ
next_slot t idx = bit_and (idx + 1) t.mask

-- The loop of `lookup`, by the rounds left before `probes > self.mask`.
pub probe : ℕ → KeySymbolTable → Bytes → ℕ → ℕ → Option Bytes
probe zero t bytes hash idx = none
probe (suc rounds) t bytes hash idx =
    let rest = probe rounds t bytes hash (next_slot t idx) in
    if is_some (get_or t.values idx none)
    then (if get_or t.hashes idx 0 == hash && key_is (get_or t.keys idx none) bytes
        then get_or t.values idx none
        else rest)
    else none

unfoldable pub lookup : KeySymbolTable → Bytes → ℕ → Option Bytes
lookup t bytes hash = probe (t.mask + 1) t bytes hash (bit_and hash t.mask)

-- `while self.values[idx].is_some()`, by fuel.
pub free_slot : ℕ → KeySymbolTable → ℕ → Option ℕ
free_slot zero t idx = none
free_slot (suc fuel) t idx =
    let rest = free_slot fuel t (next_slot t idx) in
    if is_some (get_or t.values idx none) then rest else some idx

-- The writes to slot `idx` of the three arrays.
pub store : KeySymbolTable → ℕ → ℕ → Bytes → Bytes → KeySymbolTable
store t idx hash key value = record t {
  hashes = set t.hashes idx hash;
  keys = set t.keys idx (some key);
  values = set t.values idx (some value);
}

-- One entry of the old arrays into the new ones; `None` where the search for a slot does not end.
pub place : KeySymbolTable → ℕ → Bytes → Bytes → Option KeySymbolTable
place t hash key value = elim (free_slot (t.mask + 1) t (bit_and hash t.mask)) [
  | none ↦ none
  | some idx ↦ some (store t idx hash key value)
]

abbrev pub unwrap_or_default : Option Bytes → Bytes
unwrap_or_default none = []
unwrap_or_default (some k) = k

abbrev pub and_then :
    Option KeySymbolTable → (KeySymbolTable → Option KeySymbolTable) → Option KeySymbolTable
and_then none f = none
and_then (some t) f = f t

-- `for i in 0..old_values.len()`, over the three old arrays together.
pub rehash :
    List ℕ → List (Option Bytes) → List (Option Bytes) → KeySymbolTable → Option KeySymbolTable
rehash (h ∷ hs) (k ∷ ks) (none ∷ vs) t = rehash hs ks vs t
rehash (h ∷ hs) (k ∷ ks) (some v ∷ vs) t =
    and_then (place t h (unwrap_or_default k) v) (rehash hs ks vs)
rehash _ _ _ t = some t

pub grow : KeySymbolTable → Option KeySymbolTable
grow t = rehash t.hashes t.keys t.values (allocate ((t.mask + 1) * 2) t)

-- `put` behind its first test: `size >= cap - (cap >> 2)` makes the table grow first.
unfoldable pub put : KeySymbolTable → Bytes → ℕ → Bytes → Option KeySymbolTable
put t bytes hash value =
    let cap = t.mask + 1 in
    let room = if leb (cap - cap / 4) t.size then grow t else some t in
    let stored =
      and_then room
        (λ r. and_then (place r hash bytes value) (λ w. some (record w { size = w.size + 1 }))) in
    if leb max_entries t.size then some t else stored

-- ===== src/HashTable.antt =====
-- `poHT_findInt` and `poHT_findUInt64` of potato_old/hashTable.h. A table is the list of the keys of its
-- elements, each the 32 bits that are read as an `int`; offsets are counted in elements, since
-- `tableLen * elementSize` is below 2^32.
pub mod Probing
pub mod Wide
pub mod Tests
use tidbits.Prelude.{
  ℕ, zero, suc, ◌+◌, ◌-◌, ◌/◌, ◌%◌, ◌^◌, ◌==◌, ltb, if◌then◌else◌, Bool, Option, none, some, List,
  [], ◌∷◌, length, get_or, set,
}
use tidbits.Murmur.{murmur_hash}

-- The slot behind slot `i`; behind the last one comes the first.
abbrev pub next_slot : List ℕ → ℕ → ℕ
next_slot keys i = if i + 1 == length keys then 0 else i + 1

-- The loop: the first slot from `i` on whose key passes the test. It runs forever where there is
-- none, and so does any number of rounds end with `none`.
unfoldable pub probe : (ℕ → Bool) → List ℕ → ℕ → ℕ → Option ℕ
probe test keys zero i = none
probe test keys (suc rounds) i =
    let later = probe test keys rounds (next_slot keys i) in
    if test (get_or keys i 0) then some i else later

-- The bytes of a key of `n` bytes.
abbrev pub key_bytes : ℕ → ℕ → List ℕ
key_bytes zero k = []
key_bytes (suc n) k = k % 2 ^ 8 ∷ key_bytes n (k / 2 ^ 8)

abbrev pub store : List ℕ → ℕ → ℕ → ℕ → List ℕ
store keys i hkey ekey = if hkey == ekey then keys else set keys i (hkey % 2 ^ 32)

abbrev pub result : List ℕ → ℕ → ℕ → Option ℕ → Option (ℕ × List ℕ)
result keys hkey ekey none = none
result keys hkey ekey (some i) = some (i, store keys i hkey ekey)

abbrev pub first_slot : ℕ → List ℕ → ℕ → ℕ
first_slot bytes keys hkey = murmur_hash (key_bytes bytes hkey) 0 % length keys

-- The slot that is found, and the table. The keys of `poHT_findInt` are 32 bits as well.
unfoldable pub find_int : ℕ → List ℕ → ℕ → ℕ → Option (ℕ × List ℕ)
find_int rounds keys hkey ekey =
    result keys hkey ekey (probe (λ x. x == ekey) keys rounds (first_slot 4 keys hkey))

-- An `int` as it is compared with a `uint64_t`.
abbrev pub widen : ℕ → ℕ
widen x = if ltb x (2 ^ 31) then x else x + 2 ^ 64 - 2 ^ 32

unfoldable pub find_uint64 : ℕ → List ℕ → ℕ → ℕ → Option (ℕ × List ℕ)
find_uint64 rounds keys hkey ekey =
    result keys hkey ekey (probe (λ x. widen x == ekey) keys rounds (first_slot 8 keys hkey))

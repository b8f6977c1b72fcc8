-- ===== src/HashTable/Wide.antt =====
-- `poHT_findUInt64`, which reads the keys of its elements as an `int`.
use tidbits.Prelude.{
  ℕ, zero, suc, ◌-◌, ◌≤◌, ◌<◌, ◌≡◌, refl, ap, ◌==◌, Bool, false, none, List, get_or, arith, ◌^◌,
}
use tidbits.HashTable.{next_slot, probe, result, first_slot, widen, find_uint64}

probe-none :
    (test : ℕ → Bool) (keys : List ℕ) (rounds i : ℕ)
    → ((j : ℕ) → test (get_or keys j 0) ≡ false)
    → probe test keys rounds i ≡ none
unfolding probe
probe-none test keys zero i h = refl
probe-none test keys (suc rounds) i h =
    ground (arith, h i, probe-none test keys rounds (next_slot keys i) h)

widen_ne :
    (x key : ℕ) → x < 2 ^ 32 → 2 ^ 31 ≤ key → key < 2 ^ 64 - 2 ^ 31 → (widen x == key) ≡ false
widen_ne x key a b c = ground arith

-- A key from 2^31 on, but for the last 2^31 ones, is never found by `poHT_findUInt64`, whatever the
-- table holds and however long it looks.
pub wide_key_lost :
    (rounds : ℕ) (keys : List ℕ) (key : ℕ)
    → ((j : ℕ) → get_or keys j 0 < 2 ^ 32)
    → 2 ^ 31 ≤ key
    → key < 2 ^ 64 - 2 ^ 31
    → find_uint64 rounds keys key key ≡ none
unfolding find_uint64
wide_key_lost rounds keys key h a b = ap (result keys key key) (
    probe-none (λ x. widen x == key) keys rounds (first_slot 8 keys key)
      (λ j. widen_ne (get_or keys j 0) key (h j) a b))

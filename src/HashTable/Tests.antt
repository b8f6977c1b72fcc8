-- ===== src/HashTable/Tests.antt =====
-- The lookups in a table of four slots.
use tidbits.Prelude.{
  ℕ, zero, suc, ◌<◌, ◌≡◌, refl, none, some, List, [], ◌∷◌, get_or, set, arith, ◌+◌, ◌^◌,
}
use tidbits.Murmur.{murmur_hash, mix_bytes}
use tidbits.HashTable.{find_int, find_uint64}
use tidbits.HashTable.Probing.{Absent, find_int_insert}
use tidbits.HashTable.Wide.{wide_key_lost}

abbrev two_keys : List ℕ
two_keys = 7 ∷ 0xffff_ffff ∷ 0xffff_ffff ∷ 12 ∷ []

test_hash : murmur_hash (116 ∷ 101 ∷ 115 ∷ 116 ∷ []) 0 ≡ 0xba6bd213
unfolding murmur_hash mix_bytes
test_hash = refl

-- Of the string "Hello, world!", whose last block is one byte.
long_hash :
    murmur_hash (72 ∷ 101 ∷ 108 ∷ 108 ∷ 111 ∷ 44 ∷ 32 ∷ 119 ∷ 111 ∷ 114 ∷ 108 ∷ 100 ∷ 33 ∷ []) 0
    ≡ 0xc0363e43
unfolding murmur_hash mix_bytes
long_hash = refl

nine-Absent : Absent 9 two_keys
nine-Absent zero h = omega arith
nine-Absent (suc zero) h = omega arith
nine-Absent (suc (suc zero)) h = omega arith
nine-Absent (suc (suc (suc zero))) h = omega arith
nine-Absent (suc (suc (suc (suc i)))) h = absurd (omega arith)

find_int_insert_example :
    (r : ℕ) × (find_int 4 two_keys 9 0xffff_ffff ≡ some (r, set two_keys r 9))
    × (get_or two_keys r 0 ≡ 0xffff_ffff)
    × (find_int 4 (set two_keys r 9) 9 9 ≡ some (r, set two_keys r 9))
find_int_insert_example = find_int_insert two_keys 9 1 (omega arith) refl (omega arith) nine-Absent

two_keys_small : (j : ℕ) → get_or two_keys j 0 < 2 ^ 32
two_keys_small zero = omega arith
two_keys_small (suc zero) = omega arith
two_keys_small (suc (suc zero)) = omega arith
two_keys_small (suc (suc (suc zero))) = omega arith
two_keys_small (suc (suc (suc (suc j)))) = omega arith

wide_key_lost_example : find_uint64 100 two_keys (2 ^ 32 + 7) (2 ^ 32 + 7) ≡ none
wide_key_lost_example =
    wide_key_lost 100 two_keys (2 ^ 32 + 7) two_keys_small (omega arith) (omega arith)

-- ===== src/Random/Tests.antt =====
-- Random numbers and strings at concrete seeds.
use tidbits.Prelude.{ℕ, ◌+◌, ◌%◌, ◌^◌, ◌↔◌, ◌≡◌, refl, Option, some, List, [], ◌∷◌, arith}
use tidbits.Murmur.{murmur_hash, mix_bytes}
use tidbits.Random.{random_get, xsubi, chars_of, random_chars, rand_sequence_string}
use tidbits.Random.Numbers.{number, number_again}
use tidbits.Random.Strings.{IsRandom, rand_sequence_string-IsRandom}

-- "0x100000000".
abbrev first_pointer : List ℕ
first_pointer = 48 ∷ 120 ∷ 49 ∷ 48 ∷ 48 ∷ 48 ∷ 48 ∷ 48 ∷ 48 ∷ 48 ∷ 48 ∷ []

rand_sequence_string-IsRandom_example :
    (s : List ℕ) × (rand_sequence_string 10 290 first_pointer ≡ some s) × IsRandom 10 290 s
rand_sequence_string-IsRandom_example =
    rand_sequence_string-IsRandom 10 290 first_pointer (omega arith) (omega arith)

abbrev a_string : Option (List ℕ)
a_string = rand_sequence_string 10 3 first_pointer

-- "A1095A6536F".
a_run : a_string ≡ some (65 ∷ 49 ∷ 48 ∷ 57 ∷ 53 ∷ 65 ∷ 54 ∷ 53 ∷ 51 ∷ 54 ∷ 70 ∷ [])
unfolding rand_sequence_string random_chars chars_of xsubi murmur_hash mix_bytes
a_run = refl

number_again_example : (number 1 (2 ^ 32 + 6) ≡ number 1 6) ↔ ((2 ^ 32 + 6) % 2 ^ 32 ≡ 6 % 2 ^ 32)
number_again_example = number_again 1 (2 ^ 32 + 6) 6 (omega arith)

first_number : number 1 0 ≡ 1578231156
unfolding random_get murmur_hash mix_bytes
first_number = refl

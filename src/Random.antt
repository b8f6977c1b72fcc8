-- ===== src/Random.antt =====
-- `poRandom_init` and `poRandom_get` of potato_old/random.h and `poRandSequence_string` of
-- potato_old/randSequence.c, on a little-endian machine. The lengths that a program may configure are
-- arguments.
pub mod Strings
pub mod Numbers
mod Tests
use tidbits.Prelude.{
  ℕ, zero, suc, ◌+◌, ◌*◌, ◌/◌, ◌%◌, ◌^◌, if◌then◌else◌, ltb, Option, none, some, List, [], ◌∷◌,
  ◌++◌, length,
}
use tidbits.Murmur.{murmur_hash}

pub record PoRandom : Type 0 where
  pub seed : ℕ
  pub counter : ℕ

abbrev pub random_init : ℕ → PoRandom
random_init seed = record { seed = seed; counter = 0 }

-- The bytes of a `uint32_t` in memory.
abbrev pub bytes_of : ℕ → List ℕ
bytes_of n = n % 2 ^ 8 ∷ n / 2 ^ 8 % 2 ^ 8 ∷ n / 2 ^ 16 % 2 ^ 8 ∷ n / 2 ^ 24 % 2 ^ 8 ∷ []

unfoldable pub random_get : PoRandom → ℕ × PoRandom
random_get r =
    let counter = (r.counter + 1) % 2 ^ 32 in
    (murmur_hash (bytes_of counter) r.seed, record r { counter = counter })

-- `nrand48` of the C library, on the 48 bits of `xsubi`: the number, and the bits after it.
abbrev pub nrand48 : ℕ → ℕ × ℕ
nrand48 x = let y = (0x5deece66d * x + 0xb) % 2 ^ 48 in (y / 2 ^ 17, y)

abbrev pub int2char : ℕ → ℕ
int2char i = if ltb i 10 then i + 48 else i + 55

-- The first 48 bits of the two seeds.
abbrev pub seed_bits : List ℕ → List ℕ → ℕ
seed_bits front next = murmur_hash front 0x324a5234 + murmur_hash next 0xf3245234 % 2 ^ 16 * 2 ^ 32

-- The same from the buffer; `none` is a buffer of less than 8 bytes, behind whose end the code would read.
unfoldable pub xsubi : List ℕ → Option ℕ
xsubi (a ∷ b ∷ c ∷ d ∷ e ∷ f ∷ g ∷ h ∷ behind) =
    some (seed_bits (a ∷ b ∷ c ∷ d ∷ []) (e ∷ f ∷ g ∷ h ∷ []))
xsubi short = none

-- `int2char((ptr[j/2] >> (4 * (j%2))) & 0x0F)`, where `ptr` points to the bytes of `val`.
abbrev pub hex_char : ℕ → ℕ → ℕ
hex_char val j = int2char (val / 2 ^ (8 * (j / 2)) % 2 ^ 8 / 2 ^ (4 * (j % 2)) % 2 ^ 4)

-- The inner loop, which writes at most `k` more characters of `val` from `j` on: those, and the length
-- that is left.
unfoldable pub chars_of : ℕ → ℕ → ℕ → ℕ → List ℕ × ℕ
chars_of zero val j len = ([], len)
chars_of (suc k) val j zero = ([], zero)
chars_of (suc k) val j (suc len) = let r = chars_of k val (j + 1) len in (hex_char val j ∷ r.0, r.1)

-- The outer loop for a number of passes, each with the next number; `none` is too few of them.
unfoldable pub random_chars : ℕ → ℕ → ℕ → Option (List ℕ)
random_chars n x zero = some []
random_chars zero x (suc len) = none
random_chars (suc n) x (suc len) =
    let r = chars_of 6 (nrand48 x).0 0 (suc len) in
    elim (random_chars n (nrand48 x).1 r.1) [ none ↦ none | some rest ↦ some (r.0 ++ rest) ]

-- The string for a minimal length and a range of lengths, without the 0 byte at its end. The length is
-- below `low + range`, and so is the number of passes.
unfoldable pub rand_sequence_string : ℕ → ℕ → List ℕ → Option (List ℕ)
rand_sequence_string low range ibuf = elim (xsubi ibuf) [
  | none ↦ none
  | some x ↦ random_chars (low + range) (nrand48 x).1 (low + (nrand48 x).0 % range)
]

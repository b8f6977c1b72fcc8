-- ===== src/Murmur.antt =====
-- `poMurmurHash` of potato_old/murmurHash.c, on a little-endian machine.
mod Bits
pub mod Injective
use Prim.Native.Nat.{bit_or, bit_xor}
use tidbits.Prelude.{ℕ, ◌+◌, ◌-◌, ◌*◌, ◌/◌, ◌%◌, ◌^◌, List, [], ◌∷◌, length}

-- `(x << r) | (x >> (32 - r))`.
abbrev pub rotate : ℕ → ℕ → ℕ
rotate x r = bit_or (x * 2 ^ r % 2 ^ 32) (x / 2 ^ (32 - r))

abbrev pub scramble : ℕ → ℕ
scramble k = rotate (k * 0xcc9e2d51 % 2 ^ 32) 15 * 0x1b873593 % 2 ^ 32

abbrev pub word : ℕ → ℕ → ℕ → ℕ → ℕ
word a b c d = a + b * 2 ^ 8 + c * 2 ^ 16 + d * 2 ^ 24

abbrev pub mix_block : ℕ → ℕ → ℕ
mix_block hash k = (rotate (bit_xor hash (scramble k)) 13 * 5 + 0xe6546b64) % 2 ^ 32

-- The loop over the blocks, and then the switch on the bytes behind them.
unfoldable pub mix_bytes : List ℕ → ℕ → ℕ
mix_bytes [] hash = hash
mix_bytes (a ∷ []) hash = bit_xor hash (scramble a)
mix_bytes (a ∷ b ∷ []) hash = bit_xor hash (scramble (bit_xor (b * 2 ^ 8) a))
mix_bytes (a ∷ b ∷ c ∷ []) hash =
    bit_xor hash (scramble (bit_xor (bit_xor (c * 2 ^ 16) (b * 2 ^ 8)) a))
mix_bytes (a ∷ b ∷ c ∷ d ∷ bytes) hash = mix_bytes bytes (mix_block hash (word a b c d))

-- The lines behind the switch.
abbrev pub avalanche : ℕ → ℕ
avalanche h0 =
    let h1 = bit_xor h0 (h0 / 2 ^ 16) * 0x85ebca6b % 2 ^ 32 in
    let h2 = bit_xor h1 (h1 / 2 ^ 13) * 0xc2b2ae35 % 2 ^ 32 in bit_xor h2 (h2 / 2 ^ 16)

unfoldable pub murmur_hash : List ℕ → ℕ → ℕ
murmur_hash key hash = avalanche (bit_xor (mix_bytes key hash) (length key))

-- ===== src/Murmur/Injective.antt =====
-- `poMurmurHash` of potato_old/murmurHash.c tells keys of four bytes apart.
use Prim.Native.Nat.{bit_or, bit_xor}
use tidbits.Prelude.{ℕ, ◌+◌, ◌*◌, ◌/◌, ◌%◌, ◌^◌, ◌<◌, ◌≡◌, sym, ap, ◌∙◌, arith, [], ◌∷◌}
use tidbits.Murmur.{rotate, scramble, word, mix_block, mix_bytes, avalanche, murmur_hash}
use tidbits.Murmur.Bits.{
  halve, halve-bit_xor, bit_xor_cancel, bit_xor_comm, bit_xor_bound, bit_or_apart,
}

times_c1 :
    (x y : ℕ) → x < 2 ^ 32 → y < 2 ^ 32 → x * 0xcc9e2d51 % 2 ^ 32 ≡ y * 0xcc9e2d51 % 2 ^ 32 → x ≡ y
times_c1 x y h k e = omega arith

times_c2 :
    (x y : ℕ) → x < 2 ^ 32 → y < 2 ^ 32 → x * 0x1b873593 % 2 ^ 32 ≡ y * 0x1b873593 % 2 ^ 32 → x ≡ y
times_c2 x y h k e = omega arith

times_m1 :
    (x y : ℕ) → x < 2 ^ 32 → y < 2 ^ 32 → x * 0x85ebca6b % 2 ^ 32 ≡ y * 0x85ebca6b % 2 ^ 32 → x ≡ y
times_m1 x y h k e = omega arith

times_m2 :
    (x y : ℕ) → x < 2 ^ 32 → y < 2 ^ 32 → x * 0xc2b2ae35 % 2 ^ 32 ≡ y * 0xc2b2ae35 % 2 ^ 32 → x ≡ y
times_m2 x y h k e = omega arith

times_five :
    (x y : ℕ)
    → x < 2 ^ 32
    → y < 2 ^ 32
    → (x * 5 + 0xe6546b64) % 2 ^ 32 ≡ (y * 5 + 0xe6546b64) % 2 ^ 32
    → x ≡ y
times_five x y h k e = omega arith

rotate_sum :
    (x : ℕ)
    → x < 2 ^ 32
    → (rotate x 15 ≡ x % 2 ^ 17 * 2 ^ 15 + x / 2 ^ 17)
      × (rotate x 13 ≡ x % 2 ^ 19 * 2 ^ 13 + x / 2 ^ 19)
rotate_sum x h = (
  ap (λ (u : ℕ). bit_or u (x / 2 ^ 17)) {x = x * 2 ^ 15 % 2 ^ 32} {y = x % 2 ^ 17 * 2 ^ 15}
        (omega arith)
      ∙ bit_or_apart 15 (x % 2 ^ 17) (x / 2 ^ 17) (omega arith),
  ap (λ (u : ℕ). bit_or u (x / 2 ^ 19)) {x = x * 2 ^ 13 % 2 ^ 32} {y = x % 2 ^ 19 * 2 ^ 13}
        (omega arith)
      ∙ bit_or_apart 13 (x % 2 ^ 19) (x / 2 ^ 19) (omega arith),
)

scramble_injective : (x y : ℕ) → x < 2 ^ 32 → y < 2 ^ 32 → scramble x ≡ scramble y → x ≡ y
scramble_injective x y h k e =
    let u = x * 0xcc9e2d51 % 2 ^ 32 in
    let v = y * 0xcc9e2d51 % 2 ^ 32 in
    let (ru, su) = rotate_sum u (omega arith) in
    let (rv, sv) = rotate_sum v (omega arith) in
    let same = times_c2 (rotate u 15) (rotate v 15) (omega (arith, ru)) (omega (arith, rv)) e in
    times_c1 x y h k (omega (arith, ru, rv, same))

-- A shift that goes through an exclusive or.
module _ (shift : ℕ → ℕ)
    (through : (a b : ℕ) → shift (bit_xor a b) ≡ bit_xor (shift a) (shift b)) where
  up :
      (x y : ℕ)
      → bit_xor x (shift x) ≡ bit_xor y (shift y)
      → bit_xor (shift x) (shift (shift x)) ≡ bit_xor (shift y) (shift (shift y))
  up x y e = sym (through x (shift x)) ∙ ap shift e ∙ through y (shift y)

  down : (x y : ℕ) → bit_xor x (shift x) ≡ bit_xor y (shift y) → shift x ≡ shift y → x ≡ y
  down x y e d = bit_xor_cancel x y (shift x) (e ∙ ap (bit_xor y) (sym d))

halve_16 : (x : ℕ) → halve 16 x ≡ x / 2 ^ 16
halve_16 x = omega arith

halve_13 : (x : ℕ) → halve 13 x ≡ x / 2 ^ 13
halve_13 x = omega arith

through_16 : (a b : ℕ) → bit_xor a b / 2 ^ 16 ≡ bit_xor (a / 2 ^ 16) (b / 2 ^ 16)
through_16 a b =
    sym (halve_16 (bit_xor a b))
    ∙ halve-bit_xor 16 a b
    ∙ ap (λ (u : ℕ). bit_xor u (halve 16 b)) (halve_16 a)
    ∙ ap (bit_xor (a / 2 ^ 16)) (halve_16 b)

through_13 : (a b : ℕ) → bit_xor a b / 2 ^ 13 ≡ bit_xor (a / 2 ^ 13) (b / 2 ^ 13)
through_13 a b =
    sym (halve_13 (bit_xor a b))
    ∙ halve-bit_xor 13 a b
    ∙ ap (λ (u : ℕ). bit_xor u (halve 13 b)) (halve_13 a)
    ∙ ap (bit_xor (a / 2 ^ 13)) (halve_13 b)

shift_16_injective :
    (x y : ℕ) → x < 2 ^ 32 → y < 2 ^ 32 → bit_xor x (x / 2 ^ 16) ≡ bit_xor y (y / 2 ^ 16) → x ≡ y
shift_16_injective x y h k e =
    let shift = λ (u : ℕ). u / 2 ^ 16 in
    down shift through_16 x y e
      (down shift through_16 (x / 2 ^ 16) (y / 2 ^ 16) (up shift through_16 x y e) (omega arith))

shift_13_injective :
    (x y : ℕ) → x < 2 ^ 32 → y < 2 ^ 32 → bit_xor x (x / 2 ^ 13) ≡ bit_xor y (y / 2 ^ 13) → x ≡ y
shift_13_injective x y h k e =
    let shift = λ (u : ℕ). u / 2 ^ 13 in
    let e1 = up shift through_13 x y e in
    let e2 = up shift through_13 (x / 2 ^ 13) (y / 2 ^ 13) e1 in
    down shift through_13 x y e (
      down shift through_13 (x / 2 ^ 13) (y / 2 ^ 13) e1
        (down shift through_13 (x / 2 ^ 13 / 2 ^ 13) (y / 2 ^ 13 / 2 ^ 13) e2 (omega arith)))

avalanche_injective : (x y : ℕ) → x < 2 ^ 32 → y < 2 ^ 32 → avalanche x ≡ avalanche y → x ≡ y
avalanche_injective x y h k e =
    let b : (u : ℕ) → u < 2 ^ 32 → bit_xor u (u / 2 ^ 16) < 2 ^ 32 =
      λ u l. bit_xor_bound 32 u (u / 2 ^ 16) l (omega arith) in
    let b' : (u : ℕ) → u < 2 ^ 32 → bit_xor u (u / 2 ^ 13) < 2 ^ 32 =
      λ u l. bit_xor_bound 32 u (u / 2 ^ 13) l (omega arith) in
    let x1 = bit_xor x (x / 2 ^ 16) * 0x85ebca6b % 2 ^ 32 in
    let y1 = bit_xor y (y / 2 ^ 16) * 0x85ebca6b % 2 ^ 32 in
    let x2 = bit_xor x1 (x1 / 2 ^ 13) * 0xc2b2ae35 % 2 ^ 32 in
    let y2 = bit_xor y1 (y1 / 2 ^ 13) * 0xc2b2ae35 % 2 ^ 32 in
    let e2 = shift_16_injective x2 y2 (omega arith) (omega arith) e in
    let lx : x1 < 2 ^ 32 = omega arith in
    let ly : y1 < 2 ^ 32 = omega arith in
    let e1 =
      times_m2 (bit_xor x1 (x1 / 2 ^ 13)) (bit_xor y1 (y1 / 2 ^ 13)) (b' x1 lx) (b' y1 ly) e2 in
    let e0 = shift_13_injective x1 y1 lx ly e1 in
    shift_16_injective x y h k
      (times_m1 (bit_xor x (x / 2 ^ 16)) (bit_xor y (y / 2 ^ 16)) (b x h) (b y k) e0)

scramble_bound : (x : ℕ) → scramble x < 2 ^ 32
scramble_bound x = omega arith

mix_block_injective :
    (hash k l : ℕ)
    → hash < 2 ^ 32
    → k < 2 ^ 32
    → l < 2 ^ 32
    → mix_block hash k ≡ mix_block hash l
    → k ≡ l
mix_block_injective hash k l h hk hl e =
    let u = bit_xor hash (scramble k) in
    let v = bit_xor hash (scramble l) in
    let bu = bit_xor_bound 32 hash (scramble k) h (scramble_bound k) in
    let bv = bit_xor_bound 32 hash (scramble l) h (scramble_bound l) in
    let (su, ru) = rotate_sum u bu in
    let (sv, rv) = rotate_sum v bv in
    let same =
      times_five (rotate u 13) (rotate v 13) (omega (arith, ru, bu)) (omega (arith, rv, bv)) e in
    let uv : u ≡ v = omega (arith, ru, rv, same) in
    scramble_injective k l hk hl (
      bit_xor_cancel (scramble k) (scramble l) hash
        (bit_xor_comm (scramble k) hash ∙ uv ∙ bit_xor_comm hash (scramble l)))

-- Different words of four bytes have different hashes.
pub murmur_hash_injective :
    (a b c d a' b' c' d' hash : ℕ)
    → hash < 2 ^ 32
    → word a b c d < 2 ^ 32
    → word a' b' c' d' < 2 ^ 32
    → murmur_hash (a ∷ b ∷ c ∷ d ∷ []) hash ≡ murmur_hash (a' ∷ b' ∷ c' ∷ d' ∷ []) hash
    → word a b c d ≡ word a' b' c' d'
unfolding murmur_hash mix_bytes
murmur_hash_injective a b c d a' b' c' d' hash h k l e =
    let u = mix_block hash (word a b c d) in
    let v = mix_block hash (word a' b' c' d') in
    let bu : u < 2 ^ 32 = omega arith in
    let bv : v < 2 ^ 32 = omega arith in
    mix_block_injective hash (word a b c d) (word a' b' c' d') h k l (
      bit_xor_cancel u v 4 (
        avalanche_injective (bit_xor u 4) (bit_xor v 4) (bit_xor_bound 32 u 4 bu (omega arith))
          (bit_xor_bound 32 v 4 bv (omega arith)) e))

-- ===== src/Murmur/Bits.antt =====
-- The bitwise operations of `poMurmurHash` of potato_old/murmurHash.c, bit by bit.
use Prim.Native.Nat.{bit_or, bit_xor, bit_xor-bitwise, bit_or-bitwise, digits, differ, max}
use native.Mathlib.Nat.{mul_assoc}
use tidbits.Prelude.{
  ℕ, zero, suc, ◌+◌, ◌*◌, ◌/◌, ◌%◌, ◌^◌, ◌≤◌, ◌<◌, ◌≡◌, refl, sym, ap, ◌∙◌, arith,
}

-- The digits for any count that is enough.
digits_enough :
    (f : ℕ → ℕ → ℕ) (n m a b : ℕ)
    → a ≤ n
    → a ≤ m
    → digits (λ b. b) f n a b ≡ digits (λ b. b) f m a b
digits_enough f zero zero a b h k = refl
digits_enough f zero (suc m) zero b h k = refl
digits_enough f zero (suc m) (suc a) b h k = absurd (omega arith)
digits_enough f (suc n) zero zero b h k = refl
digits_enough f (suc n) zero (suc a) b h k = absurd (omega arith)
digits_enough f (suc n) (suc m) zero b h k = refl
digits_enough f (suc n) (suc m) (suc a) b h k =
    ap (λ (r : ℕ). r * 2 + f (suc a % 2) (b % 2))
      (digits_enough f n m (suc a / 2) (b / 2) (omega arith) (omega arith))

xor_digits : (a b : ℕ) → bit_xor a b ≡ digits (λ b. b) differ a a b
xor_digits a b = λ i. bit_xor-bitwise a b i

or_digits : (a b : ℕ) → bit_or a b ≡ digits (λ b. b) max a a b
or_digits a b = λ i. bit_or-bitwise a b i

halves_of :
    (f : ℕ → ℕ → ℕ) (a b : ℕ)
    → f 0 (b % 2) ≡ b % 2
    → digits (λ b. b) f a a b ≡ digits (λ b. b) f (a / 2) (a / 2) (b / 2) * 2 + f (a % 2) (b % 2)
halves_of f zero b h = omega (arith, h)
halves_of f (suc a) b h =
    ap (λ (r : ℕ). r * 2 + f (suc a % 2) (b % 2))
      (digits_enough f a (suc a / 2) (suc a / 2) (b / 2) (omega arith) (omega arith))

-- The last bit of an exclusive or, and the others.
pub bit_xor_halves : (a b : ℕ) → bit_xor a b ≡ bit_xor (a / 2) (b / 2) * 2 + differ (a % 2) (b % 2)
bit_xor_halves a b =
    xor_digits a b
    ∙ halves_of differ a b refl
    ∙ ap (λ (r : ℕ). r * 2 + differ (a % 2) (b % 2)) (sym (xor_digits (a / 2) (b / 2)))

pub bit_or_halves : (a b : ℕ) → bit_or a b ≡ bit_or (a / 2) (b / 2) * 2 + max (a % 2) (b % 2)
bit_or_halves a b =
    or_digits a b
    ∙ halves_of max a b (omega arith)
    ∙ ap (λ (r : ℕ). r * 2 + max (a % 2) (b % 2)) (sym (or_digits (a / 2) (b / 2)))

-- What `differ` does on two bits.
differ_bits : (x y : ℕ) → x < 2 → y < 2 → (differ x y < 2) × ((differ x y + x + y) % 2 ≡ 0)
differ_bits zero y h k = (k, omega (arith, k))
differ_bits (suc zero) zero h k = (omega arith, omega arith)
differ_bits (suc zero) (suc zero) h k = (omega arith, omega arith)
differ_bits (suc zero) (suc (suc y)) h k = absurd (omega arith)
differ_bits (suc (suc x)) y h k = absurd (omega arith)

pub bit_xor_half : (a b : ℕ) → bit_xor a b / 2 ≡ bit_xor (a / 2) (b / 2)
bit_xor_half a b =
    let (small, even) = differ_bits (a % 2) (b % 2) (omega arith) (omega arith) in
    omega (arith, bit_xor_halves a b, small)

-- A shift to the right, bit by bit.
abbrev pub halve : ℕ → ℕ → ℕ
halve zero a = a
halve (suc n) a = halve n (a / 2)

pub halve-bit_xor : (n a b : ℕ) → halve n (bit_xor a b) ≡ bit_xor (halve n a) (halve n b)
halve-bit_xor zero a b = refl
halve-bit_xor (suc n) a b = ap (halve n) (bit_xor_half a b) ∙ halve-bit_xor n (a / 2) (b / 2)

-- An exclusive or with the same number tells numbers apart.
cancel_below : (n a b c : ℕ) → a < n → b < n → bit_xor a c ≡ bit_xor b c → a ≡ b
cancel_below zero a b c h k e = absurd (omega arith)
cancel_below (suc zero) a b c h k e = omega arith
cancel_below (suc (suc n)) a b c h k e =
    let (d, even) = differ_bits (a % 2) (c % 2) (omega arith) (omega arith) in
    let (d', even') = differ_bits (b % 2) (c % 2) (omega arith) (omega arith) in
    let x = bit_xor_halves a c in
    let y = bit_xor_halves b c in
    let ih =
      cancel_below (suc n) (a / 2) (b / 2) (c / 2) (omega arith) (omega arith)
        (omega (arith, x, y, e, d, d')) in
    omega (arith, x, y, e, d, d', even, even', ih)

pub bit_xor_cancel : (a b c : ℕ) → bit_xor a c ≡ bit_xor b c → a ≡ b
bit_xor_cancel a b c e = cancel_below (suc (a + b)) a b c (omega arith) (omega arith) e

bit_xor_zeros : (a b : ℕ) → a < 1 → b < 1 → bit_xor a b ≡ 0
bit_xor_zeros zero zero h k = xor_digits 0 0
bit_xor_zeros zero (suc b) h k = absurd (omega arith)
bit_xor_zeros (suc a) b h k = absurd (omega arith)

bit_xor_comm_below : (n a b : ℕ) → a < n → b < n → bit_xor a b ≡ bit_xor b a
bit_xor_comm_below zero a b h k = absurd (omega arith)
bit_xor_comm_below (suc zero) a b h k = bit_xor_zeros a b h k ∙ sym (bit_xor_zeros b a k h)
bit_xor_comm_below (suc (suc n)) a b h k =
    let (d, even) = differ_bits (a % 2) (b % 2) (omega arith) (omega arith) in
    let (d', even') = differ_bits (b % 2) (a % 2) (omega arith) (omega arith) in
    omega (
      arith,
      bit_xor_halves a b,
      bit_xor_halves b a,
      d,
      d',
      even,
      even',
      bit_xor_comm_below (suc n) (a / 2) (b / 2) (omega arith) (omega arith),
    )

pub bit_xor_comm : (a b : ℕ) → bit_xor a b ≡ bit_xor b a
bit_xor_comm a b = bit_xor_comm_below (suc (a + b)) a b (omega arith) (omega arith)

-- An exclusive or of numbers of `n` bits has `n` bits.
pub bit_xor_bound : (n a b : ℕ) → a < 2 ^ n → b < 2 ^ n → bit_xor a b < 2 ^ n
bit_xor_bound zero a b h k = omega (arith, bit_xor_zeros a b h k)
bit_xor_bound (suc n) a b h k =
    let (d, even) = differ_bits (a % 2) (b % 2) (omega arith) (omega arith) in
    let ih = bit_xor_bound n (a / 2) (b / 2) (omega arith) (omega arith) in
    omega (arith, bit_xor_halves a b, d, ih)

bit_or_nothing : (n a : ℕ) → a < n → bit_or a 0 ≡ a
bit_or_nothing zero a h = absurd (omega arith)
bit_or_nothing (suc zero) zero h = or_digits 0 0
bit_or_nothing (suc zero) (suc a) h = absurd (omega arith)
bit_or_nothing (suc (suc n)) a h =
    omega (arith, bit_or_halves a 0, bit_or_nothing (suc n) (a / 2) (omega arith))

-- The or of numbers that have no bit in common is their sum.
pub bit_or_apart : (n a b : ℕ) → b < 2 ^ n → bit_or (a * 2 ^ n) b ≡ a * 2 ^ n + b
bit_or_apart zero a zero h = omega (
  arith,
  bit_or_nothing (suc a) a (omega arith),
  ap (λ (x : ℕ). bit_or x 0) {x = a * 1} {y = a} (omega arith),
)
bit_or_apart zero a (suc b) h = absurd (omega arith)
bit_or_apart (suc n) a b h =
    let double : a * 2 ^ suc n ≡ a * 2 ^ n * 2 =
      ap (λ (x : ℕ). a * x) {x = 2 ^ suc n} {y = 2 ^ n * 2} (omega arith)
      ∙ sym (mul_assoc a (2 ^ n) 2) in
    let half : a * 2 ^ suc n / 2 ≡ a * 2 ^ n = omega (arith, double) in
    let none_left : a * 2 ^ suc n % 2 ≡ 0 = omega (arith, double) in
    let ih = bit_or_apart n a (b / 2) (omega arith) in
    omega (
      arith,
      bit_or_halves (a * 2 ^ suc n) b,
      ap (λ (x : ℕ). bit_or x (b / 2)) half,
      ih,
      none_left,
      double,
    )

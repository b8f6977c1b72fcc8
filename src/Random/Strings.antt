-- ===== src/Random/Strings.antt =====
-- The strings that `poRandSequence_string` of potato_old/randSequence.c writes.
use Prim.{Unit}
use tidbits.Prelude.{
  ℕ, zero, suc, ◌+◌, ◌*◌, ◌/◌, ◌%◌, ◌^◌, ◌≤◌, ◌<◌, ◌≡◌, refl, ap, ◌⊎◌, inl, inr, Option, none, some,
  List, [], ◌∷◌, ◌++◌, length, length-append, arith, dec_lt,
}
use tidbits.Random.{
  nrand48, int2char, seed_bits, xsubi, chars_of, random_chars, rand_sequence_string,
}

-- A digit, or a letter from A to F.
abbrev pub IsHex : ℕ → Type 0
IsHex c = ((48 ≤ c) × (c ≤ 57)) ⊎ ((65 ≤ c) × (c ≤ 70))

abbrev pub AllHex : List ℕ → Type 0
AllHex [] = Unit
AllHex (c ∷ cs) = IsHex c × AllHex cs

AllHex-append : (cs ds : List ℕ) → AllHex cs → AllHex ds → AllHex (cs ++ ds)
AllHex-append [] ds h k = k
AllHex-append (c ∷ cs) ds (h, t) k = (h, AllHex-append cs ds t k)

int2char-IsHex : (i : ℕ) → i < 16 → IsHex (int2char i)
int2char-IsHex i h = elim (dec_lt i 10) [
  | yes p ↦ inl (ground (arith, p), ground (arith, p))
  | no p ↦ inr (ground (arith, p), ground (arith, p))
]

-- The inner loop writes hexadecimal digits, as many as the length that it takes off.
chars_of-AllHex :
    (k val j len : ℕ)
    → AllHex (chars_of k val j len).0
      × (length (chars_of k val j len).0 + (chars_of k val j len).1 ≡ len)
unfolding chars_of
chars_of-AllHex zero val j len = (record {}, omega arith)
chars_of-AllHex (suc k) val j zero = (record {}, omega arith)
chars_of-AllHex (suc k) val j (suc len) =
    let ih = chars_of-AllHex k val (j + 1) len in
    (
      (
        int2char-IsHex (val / 2 ^ (8 * (j / 2)) % 2 ^ 8 / 2 ^ (4 * (j % 2)) % 2 ^ 4) (omega arith),
        ih.0,
      ),
      omega (arith, ih.1),
    )

random_chars-AllHex :
    (n x len : ℕ)
    → len ≤ n
    → (s : List ℕ) × (random_chars n x len ≡ some s) × (length s ≡ len) × AllHex s
unfolding random_chars chars_of
random_chars-AllHex zero x zero h = ([], refl, refl, record {})
random_chars-AllHex zero x (suc len) h = absurd (omega arith)
random_chars-AllHex (suc n) x zero h = ([], refl, refl, record {})
random_chars-AllHex (suc n) x (suc len) h =
    let val = (nrand48 x).0 in
    let (hex, total) = chars_of-AllHex 6 val 0 (suc len) in
    let (rest, e, l, hs) =
      random_chars-AllHex n (nrand48 x).1 (chars_of 5 val 1 len).1
        (omega (arith, (chars_of-AllHex 5 val 1 len).1)) in
    (
      (chars_of 6 val 0 (suc len)).0 ++ rest,
      ap
          (λ (o : Option (List ℕ)). elim o [
            | none ↦ none
            | some cs ↦ some ((chars_of 6 val 0 (suc len)).0 ++ cs)
          ])
          e,
      omega (arith, length-append (chars_of 6 val 0 (suc len)).0 rest, l, total),
      AllHex-append (chars_of 6 val 0 (suc len)).0 rest hex hs,
    )

-- A string that `poRandSequence_string` may write.
abbrev pub IsRandom : ℕ → ℕ → List ℕ → Type 0
IsRandom low range s = (low ≤ length s) × (length s < low + range) × AllHex s

xsubi_there : (ibuf : List ℕ) → 8 ≤ length ibuf → (x : ℕ) × (xsubi ibuf ≡ some x)
unfolding xsubi
xsubi_there (a ∷ b ∷ c ∷ d ∷ e ∷ f ∷ g ∷ h ∷ behind) k =
    (seed_bits (a ∷ b ∷ c ∷ d ∷ []) (e ∷ f ∷ g ∷ h ∷ []), refl)
xsubi_there _ k = absurd (omega arith)

-- A buffer of 8 bytes at least has a string.
pub rand_sequence_string-IsRandom :
    (low range : ℕ) (ibuf : List ℕ)
    → 0 < range
    → 8 ≤ length ibuf
    → (s : List ℕ) × (rand_sequence_string low range ibuf ≡ some s) × IsRandom low range s
unfolding rand_sequence_string
rand_sequence_string-IsRandom low range ibuf h k =
    let (x, e) = xsubi_there ibuf k in
    let y = nrand48 x in
    let len = low + y.0 % range in
    let small : y.0 % range < range = omega arith in
    let (s, f, l, hex) = random_chars-AllHex (low + range) y.1 len (omega (arith, small)) in
    (s, ground (arith, e, f), (omega (arith, l), omega (arith, l, small), hex))

-- ===== src/Random/Numbers.antt =====
-- The numbers that `poRandom_get` of potato_old/random.h returns one after the other.
use tidbits.Prelude.{ℕ, zero, suc, ◌+◌, ◌/◌, ◌<◌, ◌↔◌, ◌%◌, ◌^◌, ◌≡◌, refl, sym, ap, ◌∙◌, arith}
use tidbits.Murmur.{murmur_hash}
use tidbits.Murmur.Injective.{murmur_hash_injective}
use tidbits.Random.{PoRandom, random_init, bytes_of, random_get}

-- `n` calls, of which only the state is kept.
abbrev pub after_calls : ℕ → PoRandom → PoRandom
after_calls zero r = r
after_calls (suc n) r = (random_get (after_calls n r)).1

after_calls_counter :
    (n seed : ℕ) → after_calls n (random_init seed) ≡ record { seed = seed; counter = n % 2 ^ 32 }
unfolding random_get
after_calls_counter zero seed = refl
after_calls_counter (suc n) seed =
    ap (λ (r : PoRandom). (random_get r).1) (after_calls_counter n seed)
    ∙ ap (λ (c : ℕ). record { seed = seed; counter = c }) (omega arith)

-- The number of the call that follows on `n` calls is the hash of `n + 1`.
nth_number :
    (n seed : ℕ)
    → (random_get (after_calls n (random_init seed))).0
      ≡ murmur_hash (bytes_of ((n + 1) % 2 ^ 32)) seed
unfolding random_get
nth_number n seed =
    ap (λ (r : PoRandom). (random_get r).0) (after_calls_counter n seed)
    ∙ ap (λ (c : ℕ). murmur_hash (bytes_of c) seed) (omega arith)

-- The number that follows on `n` calls.
abbrev pub number : ℕ → ℕ → ℕ
number seed n = (random_get (after_calls n (random_init seed))).0

words_apart :
    (c d seed : ℕ)
    → seed < 2 ^ 32
    → c < 2 ^ 32
    → d < 2 ^ 32
    → murmur_hash (bytes_of c) seed ≡ murmur_hash (bytes_of d) seed
    → c ≡ d
words_apart c d seed h k l e =
    let same =
      murmur_hash_injective (c % 2 ^ 8) (c / 2 ^ 8 % 2 ^ 8) (c / 2 ^ 16 % 2 ^ 8)
        (c / 2 ^ 24 % 2 ^ 8) (d % 2 ^ 8) (d / 2 ^ 8 % 2 ^ 8) (d / 2 ^ 16 % 2 ^ 8)
        (d / 2 ^ 24 % 2 ^ 8) seed h (omega arith) (omega arith) e in
    omega (arith, same)

-- For a seed of 32 bits: two numbers that `poRandom_get` returns are the same if and only if a multiple of
-- 2^32 calls lies between them. So within 2^32 calls each number of 32 bits comes at most once.
pub number_again :
    (seed i j : ℕ) → seed < 2 ^ 32 → (number seed i ≡ number seed j) ↔ (i % 2 ^ 32 ≡ j % 2 ^ 32)
number_again seed i j h = (
  λ e.
      let same =
        words_apart ((i + 1) % 2 ^ 32) ((j + 1) % 2 ^ 32) seed h (omega arith) (omega arith)
          (sym (nth_number i seed) ∙ e ∙ nth_number j seed) in
      omega (arith, same),
  λ e.
      nth_number i seed
      ∙ ap (λ (c : ℕ). murmur_hash (bytes_of c) seed) {x = (i + 1) % 2 ^ 32} {y = (j + 1) % 2 ^ 32}
          (omega arith)
      ∙ sym (nth_number j seed),
)

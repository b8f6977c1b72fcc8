-- ===== src/HashTable/Probing.antt =====
-- `poHT_findInt`: as many rounds as the table has slots find a key that is there, and a new key is
-- found where it was put.
use tidbits.Prelude.{
  ℕ, zero, suc, ◌+◌, ◌-◌, ◌<◌, ◌≡◌, ◌≢◌, inl, inr, sym, ap, subst, ◌∙◌, ◌==◌, leb, if◌then◌else◌,
  Bool, true, Bool-cases, some, List, length, get_or, set, length-set, get_or-set_self,
  get_or-set_ne, arith, ◌%◌, ◌^◌, ==_iff, ==_refl,
}
use tidbits.HashTable.{next_slot, probe, store, result, first_slot, find_int}

-- The rounds from slot `i` to slot `j`.
abbrev distance : List ℕ → ℕ → ℕ → ℕ
distance keys i j = if leb i j then j - i else (length keys - i) + j

nearer :
    (keys : List ℕ) (i j : ℕ)
    → i < length keys
    → j < length keys
    → i ≢ j
    → suc (distance keys (next_slot keys i) j) ≡ distance keys i j
nearer keys i j hi hj ne = ground (arith, ne)

pub probe_finds :
    (test : ℕ → Bool) (keys : List ℕ) (rounds i j : ℕ)
    → i < length keys
    → j < length keys
    → test (get_or keys j 0) ≡ true
    → distance keys i j < rounds
    → (r : ℕ) × (probe test keys rounds i ≡ some r)
      × (test (get_or keys r 0) ≡ true)
      × (r < length keys)
unfolding probe
probe_finds test keys zero i j hi hj t d = absurd (omega arith)
probe_finds test keys (suc rounds) i j hi hj t d = elim (Bool-cases (test (get_or keys i 0))) [
  | inl y ↦ (i, ground arith, y, hi)
  | inr n ↦
      let ne : i ≢ j = λ e.
        (let at_j : test (get_or keys i 0) ≡ true =
            subst (λ (k : ℕ). test (get_or keys k 0) ≡ true) (sym e) t in
          absurd (ground arith)) in
      let closer = nearer keys i j hi hj ne in
      let inside : next_slot keys i < length keys = ground arith in
      let (r, e, h, l) =
        probe_finds test keys rounds (next_slot keys i) j inside hj t (omega (arith, closer, d)) in
      (r, ground arith, h, l)
]

nearby :
    (keys : List ℕ) (i j : ℕ) → i < length keys → j < length keys → distance keys i j < length keys
nearby keys i j hi hj = ground arith

first_slot_lt :
    (bytes : ℕ) (keys : List ℕ) (hkey : ℕ)
    → 0 < length keys
    → first_slot bytes keys hkey < length keys
first_slot_lt bytes keys hkey h = grind arith

-- A key that is in the table is found in no more rounds than the table has slots, and the table stays
-- as it is.
pub find_int_present :
    (keys : List ℕ) (key j : ℕ)
    → j < length keys
    → get_or keys j 0 ≡ key
    → (r : ℕ) × (find_int (length keys) keys key key ≡ some (r, keys))
      × (get_or keys r 0 ≡ key)
      × (r < length keys)
unfolding find_int
find_int_present keys key j hj e =
    let (r, f, t, l) =
      probe_finds (λ x. x == key) keys (length keys) (first_slot 4 keys key) j
        (first_slot_lt 4 keys key (omega arith)) hj (ground arith)
        (nearby keys (first_slot 4 keys key) j (first_slot_lt 4 keys key (omega arith)) hj) in
    let same : store keys r key key ≡ keys = ground (arith, ==_refl key) in
    (r, ap (result keys key key) f ∙ ap (λ (ks : List ℕ). some (r, ks)) same, ground arith, l)

-- The key of a free slot: -1.
abbrev pub free : ℕ
free = 0xffff_ffff

abbrev pub Absent : ℕ → List ℕ → Type 0
Absent key keys = (i : ℕ) → i < length keys → get_or keys i 0 ≢ key

only_slot :
    (keys : List ℕ) (key r r' : ℕ)
    → Absent key keys
    → r' < length keys
    → get_or (set keys r key) r' 0 ≡ key
    → r' ≡ r
only_slot keys key r r' a l e = elim (Bool-cases (r' == r)) [
  | inl y ↦ (==_iff r' r).0 y
  | inr n ↦
      let ne : r ≢ r' =
        λ q. (let y : (r' == r) ≡ true = (==_iff r' r).1 (sym q) in absurd (ground arith)) in
      absurd (a r' l (sym (get_or-set_ne keys r r' key 0 ne) ∙ e))
]

stored :
    (keys : List ℕ) (r key : ℕ)
    → key < free
    → key % 2 ^ 32 ≡ key
    → store keys r key free ≡ set keys r key
stored keys r key small m = ground arith

-- A new key is put into a free slot, if there is one, and then found there; the other slots keep
-- their keys.
pub find_int_insert :
    (keys : List ℕ) (key j : ℕ)
    → j < length keys
    → get_or keys j 0 ≡ free
    → key < free
    → Absent key keys
    → (r : ℕ) × (find_int (length keys) keys key free ≡ some (r, set keys r key))
      × (get_or keys r 0 ≡ free)
      × (find_int (length keys) (set keys r key) key key ≡ some (r, set keys r key))
unfolding find_int
find_int_insert keys key j hj e small a =
    let (r, f, t, l) =
      probe_finds (λ x. x == free) keys (length keys) (first_slot 4 keys key) j
        (first_slot_lt 4 keys key (omega arith)) hj ((==_iff (get_or keys j 0) free).1 e)
        (nearby keys (first_slot 4 keys key) j (first_slot_lt 4 keys key (omega arith)) hj) in
    let m : key % 2 ^ 32 ≡ key = omega arith in
    let put : store keys r key free ≡ set keys r key = stored keys r key small m in
    let len = length-set keys r key in
    let (r', f', t', l') =
      find_int_present (set keys r key) key r (omega (arith, len, l))
        (get_or-set_self keys r key 0 l) in
    let same : r' ≡ r = only_slot keys key r r' a (omega (arith, len, l')) t' in
    (
      r,
      ap (result keys key free) f ∙ ap (λ (ks : List ℕ). some (r, ks)) put,
      (==_iff (get_or keys r 0) free).0 t,
      subst (λ (n : ℕ). find_int n (set keys r key) key key ≡ some (r, set keys r key)) len
          (subst
            (λ (i : ℕ).
              find_int (length (set keys r key)) (set keys r key) key key
              ≡ some (i, set keys r key))
            same f'),
    )

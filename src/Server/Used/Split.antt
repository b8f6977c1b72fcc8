-- ===== src/Server/Used/Split.antt =====
-- Lists of different elements, taken apart at one of them.
use tidbits.Prelude.{
  ℕ, ◌≡◌, refl, ap, ◌∙◌, ◌==◌, Bool-cases, inl, inr, true, false, List, [], ◌∷◌, ◌++◌, arith,
  ==_iff,
}
use tidbits.Server.Chain.{mem, Distinct, mem-append_list}

-- No element of the first list is one of the second.
abbrev pub Apart : List ℕ → List ℕ → Type 0
Apart xs ys = (z : ℕ) → mem z xs ≡ true → mem z ys ≡ false

pub Apart-sym : (xs ys : List ℕ) → Apart xs ys → Apart ys xs
Apart-sym xs ys a z h = elim (Bool-cases (mem z xs)) [
  | inl y ↦ let n = a z y in absurd (ground arith)
  | inr n ↦ n
]

-- The parts of a list in which `c` stands between `xs` and `ys`.
pub record Parts (xs : List ℕ) (c : ℕ) (ys : List ℕ) : Type 0 where
  pub before : Distinct xs
  pub behind : Distinct ys
  pub not_before : mem c xs ≡ false
  pub not_behind : mem c ys ≡ false
  pub apart : Apart xs ys
  pub joined : Distinct (xs ++ ys)

pub Distinct-Parts : (xs : List ℕ) (c : ℕ) (ys : List ℕ) → Distinct (xs ++ c ∷ ys) → Parts xs c ys
Distinct-Parts [] c ys d = record {
  before = record {};
  behind = d.1;
  not_before = refl;
  not_behind = d.0;
  apart = λ z h. absurd (ground arith);
  joined = d.1;
}
Distinct-Parts (x ∷ xs) c ys d =
    let p = Distinct-Parts xs c ys d.1 in
    let m = mem-append_list x xs (c ∷ ys) in
    let in_xs : mem x xs ≡ false = ground (arith, d.0, m) in
    let in_ys : mem x ys ≡ false = ground (arith, d.0, m) in
    record {
      before = (in_xs, p.before);
      behind = p.behind;
      not_before = ground (arith, p.not_before, d.0, m);
      not_behind = p.not_behind;
      apart = λ z h. elim (Bool-cases (z == x)) [
        | inl y ↦ ap (λ (i : ℕ). mem i ys) ((==_iff z x).0 y) ∙ in_ys
        | inr n ↦ p.apart z (ground (arith, h, n))
      ];
      joined = (ground (arith, mem-append_list x xs ys), p.joined);
    }

-- ===== src/Potato/Transfer.antt =====
-- `readn` and `writen` of potato_old/util.h on a UNIX domain socket, whose messages may carry a file
-- descriptor. What `read` and `write` say stands in a list of answers.
use tidbits.Prelude.{
  ℕ, zero, suc, ◌+◌, ◌-◌, ◌≤◌, ◌≡◌, refl, ap, ◌∙◌, if◌then◌else◌, leb, Bool, true, false, Option,
  none, some, List, [], ◌∷◌, ◌++◌, length, take, drop, arith, take-append-drop, length-drop,
  length-append,
}
use Prim.{Unit}

-- One byte that `write` sent, or the byte of a message of `sendmsg` with a descriptor.
pub data Item : Type 0 where
  byte : ℕ → Item
  descriptor : ℕ → Item

-- `got k` is a positive result, at most `k + 1`; `broken` is 0 or an error.
pub data Transferred : Type 0 where
  got : ℕ → Transferred
  broken : Transferred

-- `writen`: whether it failed, the bytes that were sent, and the answers that are left. `none` is a
-- list of answers that is too short.
unfoldable pub writen : List Transferred → List ℕ → Option (Bool × List ℕ × List Transferred)
writen answers [] = some (false, [], answers)
writen [] (b ∷ bs) = none
writen (broken ∷ answers) (b ∷ bs) = some (true, [], answers)
writen (got k ∷ answers) (b ∷ bs) = elim (writen answers (drop k bs)) [
  | none ↦ none
  | some (failed, sent, left) ↦ some (failed, b ∷ take k bs ++ sent, left)
]

-- At most `k` bytes from the front of a stream, up to a message with a descriptor.
abbrev pub front_bytes : ℕ → List Item → List ℕ × List Item
front_bytes zero items = ([], items)
front_bytes (suc k) [] = ([], [])
front_bytes (suc k) (descriptor fd ∷ items) = ([], descriptor fd ∷ items)
front_bytes (suc k) (byte b ∷ items) = let (bs, rest) = front_bytes k items in (b ∷ bs, rest)

abbrev pub at_most : ℕ → ℕ → ℕ
at_most k n = if leb k n then k else n

-- `readn` of `n` bytes from a stream: whether it failed, the bytes, and the answers and the stream that
-- are left. `none` is a list of answers that is too short, or a `read` where no byte stands in front.
unfoldable pub readn :
    List Transferred → ℕ → List Item → Option (Bool × List ℕ × List Transferred × List Item)
readn answers zero items = some (false, [], answers, items)
readn [] (suc n) items = none
readn (broken ∷ answers) (suc n) items = some (true, [], answers, items)
readn (got k ∷ answers) (suc n) [] = none
readn (got k ∷ answers) (suc n) (descriptor fd ∷ items) = none
readn (got k ∷ answers) (suc n) (byte b ∷ items) =
    let (bs, rest) = front_bytes (at_most k n) items in
    elim (readn answers (n - length bs) rest) [
      | none ↦ none
      | some (failed, more, left, behind) ↦ some (failed, b ∷ bs ++ more, left, behind)
    ]

abbrev pub AllGot : List Transferred → Type 0
AllGot [] = Unit
AllGot (got k ∷ answers) = AllGot answers
AllGot (broken ∷ answers) = ⊥

-- No call fails, and there are answers for at least `m` bytes.
pub record Enough (m : ℕ) (answers : List Transferred) : Type 0 where
  pub good : AllGot answers
  pub many : m ≤ length answers

abbrev pub plain : List ℕ → List Item
plain [] = []
plain (b ∷ bs) = byte b ∷ plain bs

pub plain-append : (xs ys : List ℕ) → plain (xs ++ ys) ≡ plain xs ++ plain ys
plain-append [] ys = refl
plain-append (x ∷ xs) ys = ap (λ (l : List Item). byte x ∷ l) (plain-append xs ys)

-- Where no call fails, `writen` sends all bytes in their order.
pub writen_returns :
    (answers : List Transferred) (bs : List ℕ) (m : ℕ)
    → Enough (length bs + m) answers
    → (left : List Transferred) × (writen answers bs ≡ some (false, bs, left)) × Enough m left
unfolding writen
writen_returns answers [] m h =
    (answers, refl, record { good = h.good; many = omega (arith, h.many) })
writen_returns [] (b ∷ bs) m h = absurd (omega (arith, h.many))
writen_returns (broken ∷ answers) (b ∷ bs) m h = absurd h.good
writen_returns (got k ∷ answers) (b ∷ bs) m h =
    let (left, e, r) =
      writen_returns answers (drop k bs) m
        (record { good = h.good; many = omega (arith, h.many, length-drop k bs) }) in
    (left, ground (arith, e, take-append-drop k bs), r)

front_bytes-plain :
    (k : ℕ) (bs : List ℕ) (items : List Item)
    → k ≤ length bs
    → front_bytes k (plain bs ++ items) ≡ (take k bs, plain (drop k bs) ++ items)
front_bytes-plain zero bs items h = refl
front_bytes-plain (suc k) [] items h = absurd (omega arith)
front_bytes-plain (suc k) (b ∷ bs) items h =
    ap (λ (r : List ℕ × List Item). (b ∷ r.0, r.1)) (front_bytes-plain k bs items (omega arith))

abbrev joined :
    ℕ
    → List ℕ
    → Option (Bool × List ℕ × List Transferred × List Item)
    → Option (Bool × List ℕ × List Transferred × List Item)
joined b bs o = elim o [
  | none ↦ none
  | some (failed, more, left, behind) ↦ some (failed, b ∷ bs ++ more, left, behind)
]

abbrev behind_front :
    ℕ
    → List Transferred
    → ℕ
    → List ℕ × List Item
    → Option (Bool × List ℕ × List Transferred × List Item)
behind_front b answers n f = joined b f.0 (readn answers n f.1)

-- Where no call fails, `readn` takes as many bytes as are asked for, in their order.
pub readn_returns :
    (answers : List Transferred) (bs : List ℕ) (items : List Item) (m : ℕ)
    → Enough (length bs + m) answers
    → (left : List Transferred) × (readn answers (length bs) (plain bs ++ items)
        ≡ some (false, bs, left, items))
      × Enough m left
unfolding readn
readn_returns answers [] items m h =
    (answers, refl, record { good = h.good; many = omega (arith, h.many) })
readn_returns [] (b ∷ bs) items m h = absurd (omega (arith, h.many))
readn_returns (broken ∷ answers) (b ∷ bs) items m h = absurd h.good
readn_returns (got k ∷ answers) (b ∷ bs) items m h =
    let j = at_most k (length bs) in
    let small : j ≤ length bs = ground arith in
    let (left, e, r) =
      readn_returns answers (drop j bs) items m
        (record { good = h.good; many = omega (arith, h.many, length-drop j bs) }) in
    let lengths : length bs - length (take j bs) ≡ length (drop j bs) = omega (
      arith,
      length-append (take j bs) (drop j bs),
      ap (λ (l : List ℕ). length l) (take-append-drop j bs),
    ) in
    (
      left,
      ap (λ (f : List ℕ × List Item). behind_front b answers (length bs - length f.0) f)
            (front_bytes-plain j bs items small)
          ∙ ap (λ (n : ℕ). behind_front b answers n (take j bs, plain (drop j bs) ++ items)) lengths
          ∙ ap (joined b (take j bs)) e
          ∙ ap (λ (l : List ℕ). some (false, b ∷ l, left, items)) (take-append-drop j bs),
      r,
    )

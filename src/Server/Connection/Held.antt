-- ===== src/Server/Connection/Held.antt =====
-- The descriptors of connections in `removeConnection` and `addConnection` of potato_old/server.c, each one
-- by its value.
use tidbits.Prelude.{
  ℕ, suc, ◌+◌, ◌≡◌, ◌==◌, refl, ap, ◌∙◌, if◌then◌else◌, Bool-cases, inl, inr, true, false, Option,
  none, some, List, [], ◌∷◌, ◌++◌, arith, ==_iff, ==_refl,
}
use tidbits.Server.{update}
use tidbits.Server.Chain.{mem}
use tidbits.Server.Used.{Connections}
use tidbits.Server.Used.Split.{Parts}
use tidbits.Server.Connection.{Connection, Server, append_if, emptied, remove_connection, opened}

-- How often a descriptor stands in a list.
abbrev pub occurrences : ℕ → List ℕ → ℕ
occurrences z [] = 0
occurrences z (x ∷ xs) = if z == x then suc (occurrences z xs) else occurrences z xs

pub occurrences-append :
    (z : ℕ) (xs ys : List ℕ) → occurrences z (xs ++ ys) ≡ occurrences z xs + occurrences z ys
occurrences-append z [] ys = omega arith
occurrences-append z (x ∷ xs) ys = ground (arith, occurrences-append z xs ys)

abbrev pub is_fd : ℕ → Option ℕ → ℕ
is_fd z none = 0
is_fd z (some fd) = if z == fd then 1 else 0

-- How many connections of the list have the descriptor.
abbrev pub held : ℕ → (ℕ → Connection) → List ℕ → ℕ
held z f [] = 0
held z f (u ∷ us) = is_fd z (f u).fd + held z f us

held-append :
    (z : ℕ) (f : ℕ → Connection) (xs ys : List ℕ) → held z f (xs ++ ys) ≡ held z f xs + held z f ys
held-append z f [] ys = omega arith
held-append z f (x ∷ xs) ys = omega (arith, held-append z f xs ys)

pub held_same :
    (z : ℕ) (f g : ℕ → Connection) (us : List ℕ)
    → ((u : ℕ) → mem u us ≡ true → (f u).fd ≡ (g u).fd)
    → held z f us ≡ held z g us
held_same z f g [] h = refl
held_same z f g (u ∷ us) h = omega (
  arith,
  ap (is_fd z) (h u (ground (arith, ==_refl u))),
  held_same z f g us (λ v m. h v (ground arith)),
)

held_other :
    (z c : ℕ) (f : ℕ → Connection) (v : Connection) (us : List ℕ)
    → mem c us ≡ false
    → held z (update f c v) us ≡ held z f us
held_other z c f v us m = held_same z (update f c v) f us (λ u k. elim (Bool-cases (u == c)) [
  | inl y ↦
      let e : mem u us ≡ mem c us = ap (λ (i : ℕ). mem i us) ((==_iff u c).0 y) in
      absurd (ground arith)
  | inr n ↦ ground (arith, n)
])

-- `removeConnection` closes the descriptor of its connection, and no other.
pub held-remove_connection :
    (z : ℕ) (s : Server) (xs ys : List ℕ) (c fd : ℕ)
    → Parts xs c ys
    → (s.conn c).fd ≡ some fd
    → occurrences z (remove_connection s c).closed + held z (remove_connection s c).conn (xs ++ ys)
      ≡ occurrences z s.closed + held z s.conn (xs ++ c ∷ ys)
unfolding remove_connection
held-remove_connection z s xs ys c fd p e =
    let f = update s.conn c emptied in
    let closed : occurrences z (append_if s.closed (s.conn c).fd)
        ≡ occurrences z s.closed + is_fd z (some fd) =
      ap (λ (o : Option ℕ). occurrences z (append_if s.closed o)) e
      ∙ occurrences-append z s.closed (fd ∷ []) in
    omega (
      arith,
      closed,
      ap (is_fd z) e,
      held-append z f xs ys,
      held-append z s.conn xs (c ∷ ys),
      held_other z c s.conn emptied xs p.not_before,
      held_other z c s.conn emptied ys p.not_behind,
    )

-- The connection that is opened has the descriptor.
pub held-opened :
    (z : ℕ) (s : Server) (lists : Connections) (us : List ℕ) (c fd callback : ℕ)
    → mem c us ≡ false
    → held z (opened s lists c fd callback).conn (us ++ c ∷ [])
      ≡ held z s.conn us + occurrences z (fd ∷ [])
held-opened z s lists us c fd callback m =
    let v = record (s.conn c) { fd = some fd; read_callback = some callback } in
    let f = update s.conn c v in
    let here : (f c).fd ≡ some fd = ground (arith, ==_refl c) in
    omega (arith, held-append z f us (c ∷ []), held_other z c s.conn v us m, ap (is_fd z) here)

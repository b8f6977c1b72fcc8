-- ===== src/Server/Connection/Open.antt =====
-- The open connections are the used ones.
use tidbits.Prelude.{
  refl, ℕ, ◌≡◌, ap, ◌==◌, ◌+◌, if◌then◌else◌, Bool, Bool-cases, inl, inr, true, false, Option, none,
  some, List, [], ◌∷◌, ◌++◌, arith, ==_refl, ==_iff,
}
use tidbits.Server.{update}
use tidbits.Server.Chain.{mem, mem-append, mem-append_list}
use tidbits.Server.Used.{Connections}
use tidbits.Server.Used.Split.{Parts, Distinct-Parts, Apart-sym}
use tidbits.Server.Used.Lists.{Lists, list_add_new-Lists}
use tidbits.Server.Connection.Held.{occurrences, held, held-remove_connection, held-opened}
use tidbits.Server.Used.Remove.{list_remove-Lists}
use tidbits.Server.Connection.{
  Connection, Server, emptied, remove_connection, opened, add_connection, close_fails,
}

abbrev pub is_open : Option ℕ → Bool
is_open none = false
is_open (some fd) = true

-- The lists are well linked, a connection has a descriptor exactly if it is used, and no assertion has
-- failed.
pub record Open (s : Server) (us fs : List ℕ) : Type 0 where
  pub lists : Lists s.lists us fs
  pub descriptors : (z : ℕ) → is_open (s.conn z).fd ≡ mem z us
  pub running : s.ended ≡ false

pub open_update :
    (f : ℕ → Connection) (c : ℕ) (v : Connection) (z : ℕ)
    → is_open (update f c v z).fd ≡ (if z == c then is_open v.fd else is_open (f z).fd)
open_update f c v z = ground arith

without :
    (xs ys : List ℕ) (c z : ℕ)
    → Parts xs c ys
    → (if z == c then false else mem z (xs ++ c ∷ ys)) ≡ mem z (xs ++ ys)
without xs ys c z p = elim (Bool-cases (z == c)) [
  | inl y ↦
      let e : mem z (xs ++ ys) ≡ mem c (xs ++ ys) =
        ap (λ (i : ℕ). mem i (xs ++ ys)) ((==_iff z c).0 y) in
      ground (arith, e, mem-append_list c xs ys, p.not_before, p.not_behind)
  | inr n ↦ ground (arith, mem-append_list z xs ys, mem-append_list z xs (c ∷ ys))
]

-- `removeConnection` of a used connection: it becomes unused and loses its descriptor, which is
-- closed, and no other is.
pub remove_connection-Open :
    (s : Server) (xs ys fs : List ℕ) (c fd : ℕ)
    → Open s (xs ++ c ∷ ys) fs
    → (s.conn c).fd ≡ some fd
    → Open (remove_connection s c) (xs ++ ys) (fs ++ c ∷ [])
      × ((z : ℕ)
          → occurrences z (remove_connection s c).closed
              + held z (remove_connection s c).conn (xs ++ ys)
            ≡ occurrences z s.closed + held z s.conn (xs ++ c ∷ ys))
unfolding remove_connection
remove_connection-Open s xs ys fs c fd h e = (
  record {
    running = ground (arith, h.running, ap close_fails e);
    lists = list_remove-Lists s.lists xs ys fs c h.lists;
    descriptors = λ z. ground (
      arith,
      open_update s.conn c emptied z,
      h.descriptors z,
      without xs ys c z (Distinct-Parts xs c ys h.lists.distinct),
    );
  },
  λ z. held-remove_connection z s xs ys c fd (Distinct-Parts xs c ys h.lists.distinct) e,
)

opened-Open :
    (s : Server) (lists : Connections) (us fs : List ℕ) (c fd callback : ℕ)
    → Open s us (c ∷ fs)
    → Lists lists (us ++ c ∷ []) fs
    → Open (opened s lists c fd callback) (us ++ c ∷ []) fs
opened-Open s lists us fs c fd callback h l = record {
  running = h.running;
  lists = l;
  descriptors = λ z. ground (arith, mem-append z c us, h.descriptors z);
}

-- `addConnection` where a connection is unused: if both system calls succeed, the first unused
-- connection is used and has the descriptor, and none is closed.
pub add_connection-Open :
    (s : Server) (us fs : List ℕ) (c fd callback : ℕ)
    → Open s us (c ∷ fs)
    → (s' : Server) × (add_connection s fd callback true true ≡ some (c, s'))
      × Open s' (us ++ c ∷ []) fs
      × (s'.closed ≡ s.closed)
      × ((z : ℕ) → held z s'.conn (us ++ c ∷ []) ≡ held z s.conn us + occurrences z (fd ∷ []))
unfolding add_connection
add_connection-Open s us fs c fd callback h =
    let (lists, e, l) = list_add_new-Lists s.lists us fs c h.lists in
    (
      opened s lists c fd callback,
      ground (arith, e),
      opened-Open s lists us fs c fd callback h l,
      refl,
      λ z.
          held-opened z s lists us c fd callback
            (Apart-sym us (c ∷ fs) h.lists.apart c (ground (arith, ==_refl c))),
    )

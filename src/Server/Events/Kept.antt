-- ===== src/Server/Events/Kept.antt =====
-- What every event of potato_old/server.c keeps, for `removeConnection` and `_poServer_accept`.
use tidbits.Prelude.{
  ℕ, ◌+◌, ◌<◌, ◌&&◌, ◌≡◌, Bool-cases, Option-cases, refl, sym, subst, ap, Bool, inl, inr, true,
  false, Option, none, some, List, [], ◌∷◌, ◌++◌, length, length-append, arith, ==_refl,
}
use tidbits.Server.{update}
use tidbits.Server.Chain.{mem, mem-append, mem-append_list}
use tidbits.Server.Queues.{Waits, queue_pull-Waits}
use tidbits.Server.Used.Split.{Apart-sym}
use tidbits.Server.Connection.Held.{occurrences, occurrences-append, held}
use tidbits.Server.Connection.Open.{Open, remove_connection-Open, add_connection-Open}
use tidbits.Server.Connection.Run.{open_has_fd}
use tidbits.Server.Connection.Account.{refused}
use tidbits.Server.Events.{
  PoServer, AcceptAnswer, no_client, accept_error, client, connected, pulled, accept, accept_at,
  accepting, removing,
}

-- Of `n` connections, those of `us` are used and those of `fs` are not, the listeners of `ls` wait, and
-- each descriptor that `accept` returned is closed or that of a used connection, as often as it was
-- returned.
pub record Kept {W : Type 0} (n : ℕ) (s : PoServer W) (us fs ls : List ℕ) : Type 0 where
  pub is_kept : Open s.server us fs
  pub all : length us + length fs ≡ n
  pub account :
      (z : ℕ) → occurrences z s.server.closed + held z s.server.conn us ≡ occurrences z s.arrived
  pub queue : Waits s.waiting ls

abbrev pub Good : {W : Type 0} → ℕ → PoServer W → Type 0
Good n s = (us : List ℕ) × (fs : List ℕ) × (ls : List ℕ) × Kept n s us fs ls

-- No connection is used, and each descriptor that `accept` returned is closed, as often as it was returned.
abbrev pub AllClosed : {W : Type 0} → ℕ → PoServer W → Type 0
AllClosed n s =
    (fs : List ℕ) × (ls : List ℕ) × Kept n s [] fs ls
    × ((z : ℕ) → occurrences z s.server.closed ≡ occurrences z s.arrived)

pub none_used-AllClosed :
    {W : Type 0} (n : ℕ) (s : PoServer W) (fs ls : List ℕ) → Kept n s [] fs ls → AllClosed n s
none_used-AllClosed n s fs ls k = (fs, ls, k, λ z. omega (arith, k.account z))

-- EAGAIN, or a descriptor for which all calls succeed: the process goes on.
abbrev pub takes_one : AcceptAnswer → Bool
takes_one no_client = true
takes_one accept_error = false
takes_one (client fd nonblocking polled t) = nonblocking && polled

-- At most one connection is new. It stands behind the others, with the time of its arrival.
abbrev pub Newest : {W : Type 0} → (ℕ → ℕ) → List ℕ → AcceptAnswer → PoServer W → List ℕ → Type 0
Newest time us no_client s used = (used ≡ us) × (s.accept_time ≡ time)
Newest time us accept_error s used = (used ≡ us) × (s.accept_time ≡ time)
Newest time us (client fd nonblocking polled t) s used =
    (f : ℕ) × (used ≡ us ++ f ∷ []) × (mem f us ≡ false) × (s.accept_time ≡ update time f t)

-- Behind `_poServer_accept` the used connections are still used. It takes a listener off the queue or an
-- unused connection.
pub record Accepted {W : Type 0} (n : ℕ) (time : ℕ → ℕ) (us fs ls : List ℕ) (a : AcceptAnswer)
    (s : PoServer W) : Type 0 where
  pub used : List ℕ
  pub free : List ℕ
  pub queued : List ℕ
  pub is_kept : Kept n s used free queued
  pub stay : (z : ℕ) → mem z us ≡ true → mem z used ≡ true
  pub newest : Newest time us a s used
  pub fewer : length free + length queued < length fs + length ls

-- Where a call fails, the process ends.
pub accept_ends :
    {W : Type 0} (s : PoServer W) (a : AcceptAnswer) → takes_one a ≡ false → accept s a ≡ none
unfolding accept
accept_ends s no_client h = absurd (ground arith)
accept_ends s accept_error h = elim (Option-cases s.waiting.first) [
  | inl e ↦ ground (arith, e)
  | inr (l, e) ↦ ground (arith, e)
]
accept_ends s (client fd nonblocking polled t) h = elim (Option-cases s.waiting.first) [
  | inl e ↦ ground (arith, e)
  | inr (l, e) ↦ ground (
    arith,
    e,
    ap (connected s fd t) (refused s.server fd (s.listener_callback l) nonblocking polled h),
  )
]

-- Where the process goes on, no call has failed.
pub accepting_takes :
    {W : Type 0} (s s' : PoServer W) (a : AcceptAnswer)
    → accepting s a ≡ some s'
    → takes_one a ≡ true
accepting_takes s s' a e = elim (Bool-cases (takes_one a)) [
  | inl y ↦ y
  | inr m ↦ absurd (ground (arith, accept_ends s a m))
]

module _ {W : Type 0} (n : ℕ) where
  -- An open connection is removed.
  pub removing-Kept :
      (s : PoServer W) (xs ys fs ls : List ℕ) (c : ℕ)
      → Kept n s (xs ++ c ∷ ys) fs ls
      → Kept n (removing s c) (xs ++ ys) (fs ++ c ∷ []) ls
  removing-Kept s xs ys fs ls c k =
      let (fd, f) =
        open_has_fd (s.server.conn c).fd
          (ground (arith, k.is_kept.descriptors c, mem-append_list c xs (c ∷ ys))) in
      let (o, l) = remove_connection-Open s.server xs ys fs c fd k.is_kept f in
      record {
        is_kept = o;
        all = omega (
          arith,
          k.all,
          length-append xs ys,
          length-append xs (c ∷ ys),
          length-append fs (c ∷ []),
        );
        account = λ z. omega (arith, k.account z, l z);
        queue = k.queue;
      }

  pub client-Accepted :
      (s : PoServer W) (us fs ls : List ℕ) (f l fd t : ℕ)
      → Kept n s us (f ∷ fs) (l ∷ ls)
      → (r : Bool × PoServer W) × (accept_at s l (client fd true true t) ≡ some r)
        × Accepted n s.accept_time us (f ∷ fs) (l ∷ ls) (client fd true true t) r.1
  client-Accepted s us fs ls f l fd t k =
      let (v, g, o, c, d) =
        add_connection-Open s.server us fs f fd (s.listener_callback l) k.is_kept in
      let new_one = Apart-sym us (f ∷ fs) k.is_kept.lists.apart f (ground (arith, ==_refl f)) in
      (
        (
          false,
          record s {
            server = v;
            accept_time = update s.accept_time f t;
            arrived = s.arrived ++ fd ∷ [];
          },
        ),
        ap (connected s fd t) g,
        record {
          used = us ++ f ∷ [];
          free = fs;
          queued = l ∷ ls;
          stay = λ z m. ground (arith, mem-append z f us);
          newest = (f, refl, new_one, refl);
          fewer = omega arith;
          is_kept = record {
            is_kept = o;
            all = omega (arith, k.all, length-append us (f ∷ []));
            account = λ z. omega (
              arith,
              k.account z,
              d z,
              ap (occurrences z) c,
              occurrences-append z s.arrived (fd ∷ []),
            );
            queue = k.queue;
          };
        },
      )

  -- `_poServer_accept`, where a listener waits, a connection is unused and no call fails, follows no NULL.
  pub accept-Accepted :
      (s : PoServer W) (us fs ls : List ℕ) (f l : ℕ) (a : AcceptAnswer)
      → takes_one a ≡ true
      → Kept n s us (f ∷ fs) (l ∷ ls)
      → (r : Bool × PoServer W) × (accept s a ≡ some r)
        × Accepted n s.accept_time us (f ∷ fs) (l ∷ ls) a r.1
  unfolding accept
  accept-Accepted s us fs ls f l a y k =
      let here : s.waiting.first ≡ some l = k.queue.holds.chain.0 in
      let (r, e, g) = at_waiting a y in
      (
        r,
        subst (λ (o : Option ℕ). elim o [ none ↦ none | some l ↦ accept_at s l a ] ≡ some r)
            (sym here) e,
        g,
      )
    where
      at_waiting :
          (a : AcceptAnswer)
          → takes_one a ≡ true
          → (r : Bool × PoServer W) × (accept_at s l a ≡ some r)
            × Accepted n s.accept_time us (f ∷ fs) (l ∷ ls) a r.1
      at_waiting no_client y =
          let (q, e, w) = queue_pull-Waits s.waiting l ls k.queue in
          (
            (false, record s { waiting = q }),
            ap (pulled s) e,
            record {
              used = us;
              free = f ∷ fs;
              queued = ls;
              stay = λ z m. m;
              newest = (refl, refl);
              fewer = omega arith;
              is_kept = record { is_kept = k.is_kept; all = k.all; account = k.account; queue = w };
            },
          )
      at_waiting accept_error y = absurd (ground arith)
      at_waiting (client fd true true t) y = client-Accepted s us fs ls f l fd t k
      at_waiting (client fd true false t) y = absurd (ground arith)
      at_waiting (client fd false polled t) y = absurd (ground arith)

  pub accepting-Accepted :
      (s : PoServer W) (us fs ls : List ℕ) (f l : ℕ) (a : AcceptAnswer)
      → takes_one a ≡ true
      → Kept n s us (f ∷ fs) (l ∷ ls)
      → (s' : PoServer W) × (accepting s a ≡ some s')
        × Accepted n s.accept_time us (f ∷ fs) (l ∷ ls) a s'
  accepting-Accepted s us fs ls f l a y k =
      let (r, e, g) = accept-Accepted s us fs ls f l a y k in
      (
        r.1,
        ap
            (λ (o : Option (Bool × PoServer W)). elim o as (λ o. Option (PoServer W)) [
              | none ↦ none
              | some (failed, s') ↦ some s'
            ])
            e,
        g,
      )

pub Accepted-Good :
    {W : Type 0} (n : ℕ) (time : ℕ → ℕ) (us fs ls : List ℕ) (a : AcceptAnswer) (s : PoServer W)
    → Accepted n time us fs ls a s
    → Good n s
Accepted-Good n time us fs ls a s k = (k.used, k.free, k.queued, k.is_kept)

-- ===== src/Server/Connection/Account.antt =====
-- Every run of a server keeps the lists, and closes each descriptor once.
use tidbits.Prelude.{
  ℕ, ◌+◌, ◌≡◌, refl, sym, subst, ap, ◌∙◌, Bool, Bool-cases, inl, inr, true, false, Option-cases,
  none, some, List, [], ◌∷◌, ◌++◌, length, length-append, append-nil, arith, of_some, ◌&&◌,
}
use tidbits.Server.{unused_pop}
use tidbits.Server.Used.{list_add_new}
use tidbits.Server.Connection.{Server, remove_connection, add_connection}
use tidbits.Server.Connection.Held.{occurrences, occurrences-append, held}
use tidbits.Server.Connection.Open.{is_open, Open, remove_connection-Open, add_connection-Open}
use tidbits.Server.Connection.Run.{
  create, Event, accepted, removal, second, step, run, arrivals, range, length-range, create-Open,
  Sound, mem_split, open_has_fd,
}

pub removed-Sound :
    (n : ℕ) (arrived : List ℕ) (s : Server) (c : ℕ)
    → Sound n arrived s
    → is_open (s.conn c).fd ≡ true
    → Sound n arrived (remove_connection s c)
removed-Sound n arrived s c k o =
    let (xs, ys, e) = mem_split c k.used (sym (k.is_kept.descriptors c) ∙ o) in
    let (fd, f) = open_has_fd (s.conn c).fd o in
    let (r, l) =
      remove_connection-Open s xs ys k.free c fd
        (subst (λ (us : List ℕ). Open s us k.free) e k.is_kept) f in
    record {
      used = xs ++ ys;
      free = k.free ++ c ∷ [];
      is_kept = r;
      all = omega (
        arith,
        k.all,
        ap (λ (us : List ℕ). length us) e,
        length-append xs ys,
        length-append xs (c ∷ ys),
        length-append k.free (c ∷ []),
      );
      account = λ z. omega (arith, l z, k.account z, ap (held z s.conn) e);
    }

no_free : (s : Server) (us : List ℕ) → Open s us [] → list_add_new s.lists ≡ none
unfolding list_add_new unused_pop
no_free s us h = ground (arith, h.lists.unused.chain)

-- Where one of the two calls fails, the process ends.
pub refused :
    (s : Server) (fd callback : ℕ) (nonblocking polled : Bool)
    → nonblocking && polled ≡ false
    → add_connection s fd callback nonblocking polled ≡ none
unfolding add_connection
refused s fd callback false polled h = refl
refused s fd callback true false h = elim (Option-cases (list_add_new s.lists)) [
  | inl e ↦ ground (arith, e)
  | inr (v, e) ↦ ground (arith, e)
]
refused s fd callback true true h = absurd (ground arith)

no_connection :
    (s : Server) (us : List ℕ) (fd callback : ℕ) (polled : Bool)
    → Open s us []
    → add_connection s fd callback true polled ≡ none
unfolding add_connection
no_connection s us fd callback polled h = ground (arith, no_free s us h)

ended_none :
    (s s' : Server) (fd callback : ℕ) (nonblocking polled : Bool)
    → add_connection s fd callback nonblocking polled ≡ none
    → ¬ (second (add_connection s fd callback nonblocking polled) ≡ some s')
ended_none s s' fd callback nonblocking polled m e =
    let no = sym (ap second m) ∙ e in absurd (ground arith)

accepted-Sound :
    (n : ℕ) (arrived : List ℕ) (s s' : Server) (fd callback : ℕ) (nonblocking polled : Bool)
    (us fs : List ℕ)
    → Open s us fs
    → length us + length fs ≡ n
    → ((z : ℕ) → occurrences z s.closed + held z s.conn us ≡ occurrences z arrived)
    → second (add_connection s fd callback nonblocking polled) ≡ some s'
    → Sound n (fd ∷ arrived) s'
accepted-Sound n arrived s s' fd callback false polled us fs k a c e =
    absurd (ended_none s s' fd callback false polled (refused s fd callback false polled refl) e)
accepted-Sound n arrived s s' fd callback true false us fs k a c e =
    absurd (ended_none s s' fd callback true false (refused s fd callback true false refl) e)
accepted-Sound n arrived s s' fd callback true true us [] k a c e =
    absurd (ended_none s s' fd callback true true (no_connection s us fd callback true k) e)
accepted-Sound n arrived s s' fd callback true true us (f ∷ fs) k a c e =
    let (t, g, o, l, d) = add_connection-Open s us fs f fd callback k in
    of_some (Sound n (fd ∷ arrived)) t s' (sym (ap second g) ∙ e) (record {
      used = us ++ f ∷ [];
      free = fs;
      is_kept = o;
      all = omega (arith, a, length-append us (f ∷ []));
      account = λ z.
          omega (arith, c z, d z, ap (occurrences z) l, occurrences-append z (fd ∷ []) arrived);
    })

step-Sound :
    (n : ℕ) (arrived : List ℕ) (s s' : Server) (e : Event)
    → Sound n arrived s
    → step s e ≡ some s'
    → Sound n (arrivals (e ∷ []) ++ arrived) s'
unfolding step
step-Sound n arrived s s' (accepted fd callback nonblocking polled) k e =
    accepted-Sound n arrived s s' fd callback nonblocking polled k.used k.free k.is_kept k.all
      k.account e
step-Sound n arrived s s' (removal c) k e = elim (Bool-cases (is_open (s.conn c).fd)) [
  | inl y ↦
      of_some (Sound n arrived) (remove_connection s c) s' (ground (arith, y))
        (removed-Sound n arrived s c k y)
  | inr m ↦ absurd (ground (arith, m))
]

-- The order in which the descriptors are counted does not matter.
same_account :
    (n : ℕ) (a b : List ℕ) (s : Server)
    → ((z : ℕ) → occurrences z a ≡ occurrences z b)
    → Sound n a s
    → Sound n b s
same_account n a b s h k = record {
  used = k.used;
  free = k.free;
  is_kept = k.is_kept;
  all = k.all;
  account = λ z. k.account z ∙ h z;
}

arrivals_cons :
    (z : ℕ) (e : Event) (es : List Event) (a : List ℕ)
    → occurrences z (arrivals es ++ (arrivals (e ∷ []) ++ a))
      ≡ occurrences z (arrivals (e ∷ es) ++ a)
arrivals_cons z (accepted fd callback nonblocking polled) es a = omega (
  arith,
  occurrences-append z (arrivals es) (fd ∷ a),
  occurrences-append z (fd ∷ []) a,
  occurrences-append z (fd ∷ []) (arrivals es ++ a),
  occurrences-append z (arrivals es) a,
)
arrivals_cons z (removal c) es a = refl

run-Sound :
    (es : List Event) (n : ℕ) (arrived : List ℕ) (s s' : Server)
    → Sound n arrived s
    → run es s ≡ some s'
    → Sound n (arrivals es ++ arrived) s'
unfolding run
run-Sound [] n arrived s s' k e = of_some (Sound n arrived) s s' e k
run-Sound (e ∷ es) n arrived s s' k r = elim (Option-cases (step s e)) [
  | inl m ↦ absurd (ground (arith, m))
  | inr (t, f) ↦
      let i =
        run-Sound es n (arrivals (e ∷ []) ++ arrived) t s' (step-Sound n arrived s t e k f)
          (ground (arith, f)) in
      same_account n (arrivals es ++ (arrivals (e ∷ []) ++ arrived)) (arrivals (e ∷ es) ++ arrived)
        s' (λ z. arrivals_cons z e es arrived) i
]

-- In every state that a run from `poServer_create` with `n` connections reaches, each connection is
-- used or unused, the lists are well linked, a descriptor stands in exactly the used ones, and each
-- descriptor that `accept` returned is closed or in use, as often as it was returned.
pub run_from_create-Sound :
    (n : ℕ) (es : List Event) (s : Server) → run es (create n) ≡ some s → Sound n (arrivals es) s
run_from_create-Sound n es s e =
    subst (λ (k : List ℕ). Sound n k s) (append-nil (arrivals es))
      (run-Sound es n [] (create n) s
        (record {
          used = [];
          free = range n 0;
          is_kept = create-Open n;
          all = omega (arith, length-range n 0);
          account = λ z. refl;
        })
        e)

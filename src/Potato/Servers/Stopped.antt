-- ===== src/Potato/Servers/Stopped.antt =====
-- `terminate` of potato_old/potato.c reaches every server.
use tidbits.Prelude.{
  ℕ, zero, suc, ◌<◌, ◌≡◌, ◌==◌, refl, sym, subst, ap, if◌then◌else◌, Bool, Bool-cases, inl, inr,
  true, false, Option, none, some, List, [], ◌∷◌, length, arith, ==_refl, ==_iff,
}
use tidbits.Server.{update}
use tidbits.Server.Chain.{mem, Distinct, Chain}
use tidbits.Potato.Servers.{Servers, stop_all, terminate, term_handler}

stop_all_stops :
    (ss : List ℕ) (n : ℕ) (next : ℕ → Option ℕ) (first : Option ℕ) (running : ℕ → Bool)
    → Chain next first ss
    → Distinct ss
    → length ss < n
    → ((z : ℕ) → mem z ss ≡ true → running z ≡ true)
    → (after : ℕ → Bool) × (stop_all n next first running ≡ some after)
      × ((z : ℕ) → after z ≡ (if mem z ss then false else running z))
unfolding stop_all
stop_all_stops ss zero next first running c d h r = absurd (omega arith)
stop_all_stops [] (suc n) next first running c d h r = (
  running,
  subst (λ (o : Option ℕ). stop_all (suc n) next o running ≡ some running) (sym c) refl,
  λ z. refl,
)
stop_all_stops (s ∷ ss) (suc n) next first running c d h r =
    let (after, e, f) =
      stop_all_stops ss n next (next s) (update running s false) c.1 d.1 (omega arith)
        (λ z m. still z m) in
    (
      after,
      subst (λ (o : Option ℕ). stop_all (suc n) next o running ≡ some after) (sym c.0)
          (ground (arith, r s (ground (arith, ==_refl s)), e)),
      λ z. ground (arith, f z),
    )
  where
    still : (z : ℕ) → mem z ss ≡ true → update running s false z ≡ true
    still z m = elim (Bool-cases (z == s)) [
      | inl y ↦
          let e : mem z ss ≡ mem s ss = ap (λ (i : ℕ). mem i ss) ((==_iff z s).0 y) in
          absurd (ground (arith, d.0))
      | inr b ↦ ground (arith, r z (ground arith))
    ]

-- The first signal stops all servers that are linked, if each of them is running, and none of the
-- others; a second one ends the program.
pub term_handler_stops :
    (p : Servers) (ss : List ℕ) (n : ℕ)
    → Chain p.next p.first ss
    → Distinct ss
    → length ss < n
    → p.terminating ≡ false
    → ((z : ℕ) → mem z ss ≡ true → p.is_running z ≡ true)
    → (p' : Servers) × (term_handler n p ≡ some p')
      × ((z : ℕ) → p'.is_running z ≡ (if mem z ss then false else p.is_running z))
      × (term_handler n p' ≡ none)
unfolding term_handler terminate
term_handler_stops p ss n c d h t r =
    let (after, e, f) = stop_all_stops ss n p.next p.first p.is_running c d h r in
    (record p { is_running = after; terminating = true }, ground (arith, t, e), f, refl)

-- ===== src/Potato/Servers/Linked.antt =====
-- The servers of potato_old/potato.c as a list.
use tidbits.Prelude.{
  ℕ, ◌≡◌, refl, sym, subst, ◌∙◌, false, Option, none, some, List, ◌∷◌, ◌++◌, arith, ==_refl,
}
use tidbits.Server.{update}
use tidbits.Server.Chain.{mem, Distinct}
use tidbits.Server.Used.{relinked}
use tidbits.Server.Used.Double.{Double, update-Agree, same-Agree, Agree-Double, behind-Double}
use tidbits.Server.Used.Remove.{links, joined-Double, first_outside}
use tidbits.Server.Used.Split.{Distinct-Parts}
use tidbits.Potato.Servers.{Servers, add_server, remove_server}

-- The servers of the list are linked both ways, the newest one first.
pub record Linked (p : Servers) (ss : List ℕ) : Type 0 where
  pub double : Double p.next p.prev none p.first ss
  pub distinct : Distinct ss

-- `_poTato_addServer` puts a new server in front.
pub add_server-Linked :
    (p : Servers) (ss : List ℕ) (s : ℕ)
    → Linked p ss
    → mem s ss ≡ false
    → Linked (add_server p s) (s ∷ ss)
unfolding add_server
add_server-Linked p ss s l m = record {
  double = (refl, before_all, behind);
  distinct = (m, l.distinct);
}
  where
    before_all : relinked (update p.prev s none) p.first (some s) s ≡ none
    before_all =
        first_outside p.next p.prev (update p.prev s none) (some s) none p.first ss s l.double m
        ∙ ground (arith, ==_refl s)

    behind :
        Double
          (update p.next s p.first)
          (relinked (update p.prev s none) p.first (some s))
          (some s)
          (update p.next s p.first s)
          ss
    behind =
        let same : update p.next s p.first s ≡ p.first = ground (arith, ==_refl s) in
        subst
          (λ (o : Option ℕ).
            Double (update p.next s p.first) (relinked (update p.prev s none) p.first (some s))
              (some s) o ss)
          (sym same)
          (behind-Double p.next (update p.prev s none) (update p.next s p.first) none (some s)
            p.first ss l.distinct (update-Agree p.next s p.first ss m)
            (Agree-Double p.next p.prev p.next (update p.prev s none) none p.first ss
              (same-Agree p.next ss) (update-Agree p.prev s none ss m) l.double))

-- `_poTato_removeServer` takes a server out, wherever it stands.
pub remove_server-Linked :
    (p : Servers) (xs ys : List ℕ) (s : ℕ)
    → Linked p (xs ++ s ∷ ys)
    → Linked (remove_server p s) (xs ++ ys)
unfolding remove_server
remove_server-Linked p xs ys s l =
    let parts = Distinct-Parts xs s ys l.distinct in
    let (e, b) = links p.next p.prev s xs ys p.first l.double in
    record {
      double = joined-Double p.next p.prev s xs ys p.first (p.prev s) parts e b l.double;
      distinct = parts.joined;
    }

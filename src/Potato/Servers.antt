-- ===== src/Potato/Servers.antt =====
-- The list of servers of potato_old/potato.c: `_poTato_addServer`, `_poTato_removeServer`, `terminate` and
-- `termHandler`.
pub mod Linked
pub mod Stopped
use tidbits.Prelude.{
  ℕ, zero, suc, if◌then◌else◌, Bool, true, false, Option, none, some, List, [], ◌∷◌,
}
use tidbits.Server.{update}
use tidbits.Server.Used.{relinked, end_after}

-- The links of `struct POServer` with the flag `isRunning`, and `po.servers` and `po.terminating`. A
-- server is a number.
pub record Servers : Type 0 where
  pub next : ℕ → Option ℕ
  pub prev : ℕ → Option ℕ
  pub first : Option ℕ
  pub is_running : ℕ → Bool
  pub terminating : Bool

-- `_poTato_addServer`.
unfoldable pub add_server : Servers → ℕ → Servers
add_server p s = record p {
  next = update p.next s p.first;
  prev = relinked (update p.prev s none) p.first (some s);
  first = some s;
}

-- `_poTato_removeServer`.
unfoldable pub remove_server : Servers → ℕ → Servers
remove_server p s = record p {
  prev = relinked p.prev (p.next s) (p.prev s);
  next = relinked p.next (p.prev s) (p.next s);
  first = end_after (p.prev s) (p.next s) p.first;
}

-- The loop of `terminate`, for a number of passes. `none` is `exit(1)`.
unfoldable pub stop_all : ℕ → (ℕ → Option ℕ) → Option ℕ → (ℕ → Bool) → Option (ℕ → Bool)
stop_all zero next first running = some running
stop_all (suc n) next none running = some running
stop_all (suc n) next (some s) running = elim (running s) [
  | true ↦ stop_all n next (next s) (update running s false)
  | false ↦ none
]

abbrev pub stopping : Servers → Option (ℕ → Bool) → Option Servers
stopping p none = none
stopping p (some running) = some (record p { is_running = running; terminating = true })

-- `terminate`, with `n` passes.
unfoldable pub terminate : ℕ → Servers → Option Servers
terminate n p =
    if p.terminating then some p else stopping p (stop_all n p.next p.first p.is_running)

-- `termHandler`.
unfoldable pub term_handler : ℕ → Servers → Option Servers
term_handler n p = if p.terminating then none else terminate n p

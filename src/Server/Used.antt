-- ===== src/Server/Used.antt =====
-- The list of used connections of potato_old/server.c, `listAddNew` and `listRemove`. It shares the
-- field `next` with the queue of unused connections.
pub mod Double
pub mod Split
pub mod Lists
pub mod Remove
use tidbits.Prelude.{ℕ, ◌==◌, if◌then◌else◌, Bool, true, false, Option, none, some, List, [], ◌∷◌}
use tidbits.Server.{update, ConnectionQueue, unused_pop, unused_push}

-- The links of `struct POServer_connection`, and the fields `used` and `unused` of `struct POServer`.
pub record Connections : Type 0 where
  pub prev : ℕ → Option ℕ
  pub first : Option ℕ
  pub last : Option ℕ
  pub unused : ConnectionQueue

-- `l->last->next = conn`, if there is a last one, and then `conn->next = NULL`.
abbrev pub next_added : (ℕ → Option ℕ) → Option ℕ → ℕ → ℕ → Option ℕ
next_added next none c = update next c none
next_added next (some l) c = update (update next l (some c)) c none

abbrev pub first_added : Option ℕ → Option ℕ → ℕ → Option ℕ
first_added first none c = some c
first_added first (some l) c = first

abbrev pub added : Connections → ConnectionQueue → ℕ → Connections
added s q c = record {
  prev = update s.prev c s.last;
  first = first_added s.first s.last c;
  last = some c;
  unused = record q { next = next_added q.next s.last c };
}

-- `listAddNew`. `none` is an access through a NULL pointer, where no connection is unused.
unfoldable pub list_add_new : Connections → Option (ℕ × Connections)
list_add_new s =
    let (o, q) = unused_pop s.unused in elim o [ none ↦ none | some c ↦ some (c, added s q c) ]

-- A link in element `o`, if there is one, and else the end of the list.
abbrev pub relinked : (ℕ → Option ℕ) → Option ℕ → Option ℕ → ℕ → Option ℕ
relinked f none v = f
relinked f (some i) v = update f i v

abbrev pub end_after : Option ℕ → Option ℕ → Option ℕ → Option ℕ
end_after none v end = v
end_after (some i) v end = end

-- `listRemove`.
unfoldable pub list_remove : Connections → ℕ → Connections
list_remove s c =
    let next = s.unused.next in
    let prev = relinked s.prev (next c) (s.prev c) in
    record {
      prev = prev;
      first = end_after (prev c) (next c) s.first;
      last = end_after (next c) (s.prev c) s.last;
      unused = unused_push (record s.unused { next = relinked next (prev c) (next c) }) c;
    }

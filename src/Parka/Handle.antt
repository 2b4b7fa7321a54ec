-- ===== src/Parka/Handle.antt =====
-- `Handle` of internal/parka/map.go: the work grant that a worker lends to a handler. Each method
-- runs under h.mu; what it calls of the map stands between the two halves of a method.
use magic_mirror.Prelude.{Bool, true, false, not, ◌&&◌, if◌then◌else◌}

pub record Handle : Type 0 where
  pub detached : Bool
  pub terminated : Bool

-- `&Handle{detach: …, reattach: …}`
abbrev pub new_handle : Handle
new_handle = record { detached = false; terminated = false }

-- What a method does first: panic outside the handler's lifetime, call the map's hook, or nothing.
pub data Entry : Type 0 where
  outside_lifetime calls_map no_effect : Entry

unfoldable pub detach_entry : Handle → Entry
detach_entry h =
    if h.terminated then outside_lifetime else if not h.detached then calls_map else no_effect

unfoldable pub reattach_entry : Handle → Entry
reattach_entry h =
    if h.terminated then outside_lifetime else if h.detached then calls_map else no_effect

-- After `h.detach()` and `h.reattach()`.
abbrev pub set_detached : Bool → Handle → Handle
set_detached b h = record h { detached = b }

-- The new handle, and whether it was detached.
unfoldable pub terminate : Handle → Handle × Bool
terminate h = (record h { terminated = true }, h.detached)

-- A handle contains a work grant iff it is neither detached nor terminated.
abbrev pub has_grant : Handle → Bool
has_grant h = not h.detached && not h.terminated

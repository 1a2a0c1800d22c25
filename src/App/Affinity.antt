-- ===== src/App/Affinity.antt =====
-- internal/app/affinity.go: `bindSession` and `bindSessionLocked`, the bounded table that keeps a
-- conversation on one account. Times are nanoseconds. The map is an association list; the loop of
-- the eviction reads it front to back, and its result does not depend on that order, since equal
-- expiry times are told apart by the key. `oldest == ""` is `none`: a session key is a digest.
mod Oldest
pub mod Eviction
mod Examples
use cpa_github_copilot.Common.{
  ℕ, ◌+◌, Bool, true, false, not, ◌&&◌, ◌||◌, Option, none, some, List, [], ◌∷◌, ltb, leb, nat_eq,
  if◌then◌else◌, length, keep_if, Eq, Bytes, Bytes_eq, bytes_lt, Map, lookup, insert, delete,
  is_present, ◌==◌,
}

-- 2 hours.
abbrev pub session_affinity_ttl : ℕ
session_affinity_ttl = 7_200_000_000_000

abbrev pub max_session_bindings : ℕ
max_session_bindings = 4096

pub record Binding : Type 0 where
  pub id : Bytes
  pub expires : ℕ

-- `!bound.expires.After(now)`.
abbrev pub is_expired : ℕ → Binding → Bool
is_expired now bound = leb bound.expires now

-- `bound.expires.Before(old.expires) || bound.expires.Equal(old.expires) && key < oldest`.
abbrev pub is_older : Bytes × Binding → Bytes × Binding → Bool
is_older (key, bound) (oldest, old) =
    ltb bound.expires old.expires || (nat_eq bound.expires old.expires && bytes_lt key oldest)

-- The entry that the loop has in `oldest` after one more live entry.
pub older : Bytes × Binding → Option (Bytes × Binding) → Option (Bytes × Binding)
older e none = some e
older e (some o) = if is_older e o then some e else some o

-- `oldest` at the end of the loop: the first to expire of the entries that live.
pub oldest_live : ℕ → Option (Bytes × Binding) → Map Bytes Binding → Option (Bytes × Binding)
unfolding older
oldest_live now acc [] = acc
oldest_live now acc (e ∷ m) = oldest_live now (if is_expired now e.1 then acc else older e acc) m

-- What the loop leaves in the map.
pub sweep : ℕ → Map Bytes Binding → Map Bytes Binding
sweep now m = keep_if (λ e. not (is_expired now e.1)) m

pub delete_oldest : Option (Bytes × Binding) → Map Bytes Binding → Map Bytes Binding
delete_oldest none m = m
delete_oldest (some o) m = delete o.0 m

-- The map with room for one more key.
pub make_room : ℕ → Map Bytes Binding → Map Bytes Binding
unfolding oldest_live sweep delete_oldest
make_room now m =
    let kept = sweep now m in
    if leb max_session_bindings (length kept)
    then delete_oldest (oldest_live now none m) kept
    else kept

abbrev pub lifetime : ℕ → ℕ
lifetime ttl = if nat_eq ttl 0 then session_affinity_ttl else ttl

unfoldable pub bind_session_locked : ℕ → Map Bytes Binding → Bytes → Bytes → ℕ → Map Bytes Binding
unfolding make_room
bind_session_locked ttl m session id now =
    let roomy =
      if not (is_present session m) && leb max_session_bindings (length m)
      then make_room now m
      else m in
    insert session (record { id = id; expires = now + lifetime ttl }) roomy

-- `bindSession`: `enabled` is the setting `session-affinity`.
pub bind_session : Bool → ℕ → Map Bytes Binding → Bytes → Bytes → ℕ → Map Bytes Binding
unfolding bind_session_locked
bind_session enabled ttl m session id now =
    if session == [] then m else if enabled then bind_session_locked ttl m session id now else m

-- ===== src/App/Affinity/Eviction.antt =====
-- internal/app/affinity.go: the size of the table, and which bindings a new one may cost.
use cpa_github_copilot.Common.{
  ℕ, ◌+◌, ◌≤◌, ◌<◌, ◌≡◌, refl, ◌≢◌, ◌⊎◌, inl, inr, not, Bool, false, none, some, [], ◌∷◌, arith,
  leb, length, keep_if, All, length-keep_if, eq_self, Map, lookup, insert, delete, is_present,
  length-insert, length-delete_present, lookup-insert, lookup-delete, Bytes, Bytes_eq, bytes_eq_iff,
  Option-cases, Bool-cases,
}
use cpa_github_copilot.App.Affinity.{
  Binding, is_expired, oldest_live, sweep, delete_oldest, make_room, lifetime, bind_session_locked,
  max_session_bindings,
}
use cpa_github_copilot.App.Affinity.Oldest.{
  oldest_live-lookup, oldest_live-least, Distinct, FirstToExpire, lookup-sweep, find-Oldest,
}

make_room-length :
    (now : ℕ) (m : Map Bytes Binding)
    → Distinct m
    → length m ≤ max_session_bindings
    → length (make_room now m) < max_session_bindings
unfolding make_room delete_oldest is_present
make_room-length now m d h = elim (Bool-cases (leb max_session_bindings (length (sweep now m)))) [
  | inr room ↦ rw (room, make_room) (ground arith)
  | inl full ↦
      let (o, found) = find-Oldest now m d (ground arith) in
      let kept = lookup-sweep now o.0 o.1 m found.listed found.live in
      let fewer = length-delete_present o.0 (sweep now m) (rw (kept, is_present)) in
      rw (full, found.chosen, make_room)
        (ground (arith, fewer, length-keep_if (λ e. not (is_expired now e.1)) m))
]

lookup-keep_if-none :
    (p : Bytes × Binding → Bool) (key : Bytes) (m : Map Bytes Binding)
    → lookup key m ≡ none
    → lookup key (keep_if p m) ≡ none
unfolding lookup
lookup-keep_if-none p key [] h = refl
lookup-keep_if-none p key ((k, b) ∷ m) h = ground (arith, lookup-keep_if-none p key m)

Distinct-keep_if :
    (p : Bytes × Binding → Bool) (m : Map Bytes Binding) → Distinct m → Distinct (keep_if p m)
Distinct-keep_if p [] d = tt
Distinct-keep_if p (e ∷ m) d =
    ground (arith, Distinct-keep_if p m d.1, lookup-keep_if-none p e.0 m d.0)

Distinct-delete : (key : Bytes) (m : Map Bytes Binding) → Distinct m → Distinct (delete key m)
unfolding delete
Distinct-delete key [] d = tt
Distinct-delete key ((k, b) ∷ m) d =
    ground (arith, Distinct-delete key m d.1, lookup-delete key k m)

Distinct-insert :
    (key : Bytes) (v : Binding) (m : Map Bytes Binding) → Distinct m → Distinct (insert key v m)
unfolding insert lookup
Distinct-insert key v [] d = (refl, tt)
Distinct-insert key v ((k, b) ∷ m) d = ground (
  arith,
  bytes_eq_iff k key,
  bytes_eq_iff key k,
  Distinct-insert key v m d.1,
  lookup-insert key k v m,
)

make_room-Distinct : (now : ℕ) (m : Map Bytes Binding) → Distinct m → Distinct (make_room now m)
unfolding make_room sweep
make_room-Distinct now m d =
    let kept = Distinct-keep_if (λ e. not (is_expired now e.1)) m d in
    elim (Option-cases (oldest_live now none m)) [
      | inl e ↦ rw (e, delete_oldest, make_room) (ground (arith, kept))
      | inr (o, e) ↦
          rw (e, delete_oldest, make_room)
            (ground (arith, kept, Distinct-delete o.0 (sweep now m) kept))
    ]

-- A Go map of at most 4096 bindings.
pub record IsTable (m : Map Bytes Binding) : Type 0 where
  pub distinct : Distinct m
  pub bounded : length m ≤ max_session_bindings

-- Binding a session keeps the table a map of at most 4096 bindings, and the session is then found
-- on the account, for the configured lifetime (2 hours where none is configured).
pub bind_session_locked-IsTable :
    (ttl : ℕ) (m : Map Bytes Binding) (session id : Bytes) (now : ℕ)
    → IsTable m
    → IsTable (bind_session_locked ttl m session id now)
      × (lookup session (bind_session_locked ttl m session id now)
          ≡ some (record { id = id; expires = now + lifetime ttl }))
unfolding bind_session_locked
bind_session_locked-IsTable ttl m session id now v =
    let b : Binding = record { id = id; expires = now + lifetime ttl } in
    ground (
      arith,
      make_room-length now m v.distinct v.bounded,
      make_room-Distinct now m v.distinct,
      Distinct-insert session b m v.distinct,
      Distinct-insert session b (make_room now m) (make_room-Distinct now m v.distinct),
      length-insert session b m,
      length-insert session b (make_room now m),
      lookup-insert session session b m,
      lookup-insert session session b (make_room now m),
      bytes_eq_iff session session,
    )

-- A bound session is found, whatever the table was.
pub bind_session_locked-lookup :
    (ttl : ℕ) (m : Map Bytes Binding) (session id : Bytes) (now : ℕ)
    → lookup session (bind_session_locked ttl m session id now)
      ≡ some (record { id = id; expires = now + lifetime ttl })
unfolding bind_session_locked
bind_session_locked-lookup ttl m session id now = simp (lookup-insert, eq_self)

make_room-keeps :
    (now : ℕ) (m : Map Bytes Binding) (key : Bytes) (b : Binding)
    → Distinct m
    → lookup key m ≡ some b
    → now < b.expires
    → (lookup key (make_room now m) ≡ some b) ⊎ FirstToExpire now m b.expires
unfolding make_room
make_room-keeps now m key b d found live =
    let kept = lookup-sweep now key b m found live in
    elim (Option-cases (oldest_live now none m)) [
      | inl e ↦ inl (rw (e, delete_oldest, make_room) (ground (arith, kept)))
      | inr (o, e) ↦
          rw (e, delete_oldest, make_room)
            (ground (
              arith,
              kept,
              lookup-delete o.0 key (sweep now m),
              bytes_eq_iff o.0 key,
              oldest_live-lookup now none m o d e,
              (oldest_live-least now none m o e).0,
            ))
    ]

-- Binding one session costs no other live binding, but for one case: the session is new, the table
-- is full, and the lost binding is one that no live binding of the table expires before. So a
-- session that is renewed costs nothing, and neither does a new one while there is room.
pub bind_session_locked-keeps :
    (ttl : ℕ) (m : Map Bytes Binding) (session id other : Bytes) (b : Binding) (now : ℕ)
    → IsTable m
    → session ≢ other
    → lookup other m ≡ some b
    → now < b.expires
    → (lookup other (bind_session_locked ttl m session id now) ≡ some b)
      ⊎ ((is_present session m ≡ false)
          × (length m ≡ max_session_bindings)
          × All (λ e. now < e.1.expires → b.expires ≤ e.1.expires) m)
unfolding bind_session_locked
bind_session_locked-keeps ttl m session id other b now v apart found live =
    let new : Binding = record { id = id; expires = now + lifetime ttl } in
    ground (
      arith,
      v,
      make_room-keeps now m other b v.distinct found live,
      lookup-insert session other new m,
      lookup-insert session other new (make_room now m),
      bytes_eq_iff session other,
    )

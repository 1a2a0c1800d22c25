-- ===== src/App/Affinity/Oldest.antt =====
-- internal/app/affinity.go: the loop over a full table for its oldest live binding.
use cpa_github_copilot.Common.{
  ℕ, ◌≤◌, ◌<◌, ◌≡◌, refl, ◌⊎◌, inl, inr, true, Option, none, some, [], ◌∷◌, arith, length, All, Map,
  lookup, Bytes, Bytes_eq, bytes_eq_iff, is_some, Option-cases, Bool-cases,
}
use cpa_github_copilot.App.Affinity.{Binding, is_expired, older, oldest_live, sweep}

-- Each key stands once, as in a Go map.
abbrev pub Distinct : Map Bytes Binding → Type 0
Distinct [] = Unit
Distinct (e ∷ m) = (lookup e.0 m ≡ none) × Distinct m

-- A live entry that no other live entry expires before.
abbrev pub FirstToExpire : ℕ → Map Bytes Binding → ℕ → Type 0
FirstToExpire now m expires = All (λ e. now < e.1.expires → expires ≤ e.1.expires) m

abbrev BelowAcc : Option (Bytes × Binding) → ℕ → Type 0
BelowAcc none n = Unit
BelowAcc (some a) n = n ≤ a.1.expires

older-le :
    (e : Bytes × Binding) (acc : Option (Bytes × Binding)) (n : ℕ)
    → BelowAcc (older e acc) n
    → BelowAcc acc n × (n ≤ e.1.expires)
unfolding older
older-le (k, b) none n h = (tt, h)
older-le (k, b) (some (j, a)) n h = ground arith

pub oldest_live-least :
    (now : ℕ) (acc : Option (Bytes × Binding)) (m : Map Bytes Binding) (o : Bytes × Binding)
    → oldest_live now acc m ≡ some o
    → FirstToExpire now m o.1.expires × BelowAcc acc o.1.expires
unfolding oldest_live
oldest_live-least now none [] o h = cc
oldest_live-least now (some a) [] o h = (tt, ground arith)
oldest_live-least now acc (e ∷ m) o h = elim (Bool-cases (is_expired now e.1)) [
  | inl gone ↦
      let rest = oldest_live-least now acc m o (rw (gone, oldest_live) at h) in
      ((λ live. absurd (ground arith), rest.0), rest.1)
  | inr lives ↦
      let rest = oldest_live-least now (older e acc) m o (rw (lives, oldest_live) at h) in
      let both = older-le e acc o.1.expires rest.1 in ((λ live. both.1, rest.0), both.0)
]

older-cases :
    (e : Bytes × Binding) (acc : Option (Bytes × Binding)) (o : Bytes × Binding)
    → older e acc ≡ some o
    → (acc ≡ some o) ⊎ (e ≡ o)
unfolding older
older-cases e none o h = inr (ground arith)
older-cases e (some a) o h = ground arith

-- The entry found is the accumulator's, or a live entry of the map.
pub oldest_live-lookup :
    (now : ℕ) (acc : Option (Bytes × Binding)) (m : Map Bytes Binding) (o : Bytes × Binding)
    → Distinct m
    → oldest_live now acc m ≡ some o
    → (acc ≡ some o) ⊎ ((lookup o.0 m ≡ some o.1) × (now < o.1.expires))
unfolding oldest_live lookup
oldest_live-lookup now acc [] o d h = inl h
oldest_live-lookup now acc ((k, b) ∷ m) o d h = elim (Bool-cases (is_expired now b)) [
  | inl gone ↦
      ground (
        arith,
        oldest_live-lookup now acc m o d.1 (rw (gone, oldest_live) at h),
        bytes_eq_iff k o.0,
      )
  | inr lives ↦ ground (
    arith,
    oldest_live-lookup now (older (k, b) acc) m o d.1 (rw (lives, oldest_live) at h),
    older-cases (k, b) acc o,
    bytes_eq_iff k o.0,
    bytes_eq_iff k k,
  )
]

older-some : (e : Bytes × Binding) (acc : Option (Bytes × Binding)) → is_some (older e acc) ≡ true
unfolding older
older-some e none = refl
older-some e (some a) = ground arith

pub oldest_live-some :
    (now : ℕ) (acc : Option (Bytes × Binding)) (m : Map Bytes Binding)
    → ((is_some acc ≡ true) ⊎ (0 < length (sweep now m)))
    → is_some (oldest_live now acc m) ≡ true
unfolding oldest_live sweep
oldest_live-some now acc [] h = ground arith
oldest_live-some now acc (e ∷ m) h = elim (Bool-cases (is_expired now e.1)) [
  | inl gone ↦ rw gone (oldest_live-some now acc m (ground arith))
  | inr lives ↦ rw lives (oldest_live-some now (older e acc) m (inl (older-some e acc)))
]

pub lookup-sweep :
    (now : ℕ) (key : Bytes) (b : Binding) (m : Map Bytes Binding)
    → lookup key m ≡ some b
    → now < b.expires
    → lookup key (sweep now m) ≡ some b
unfolding lookup sweep
lookup-sweep now key b [] found live = cc
lookup-sweep now key b ((k, c) ∷ m) found live = ground (arith, lookup-sweep now key b m)

-- What a full table deletes: a live entry, found under its key, that no live one expires before.
pub record Oldest (now : ℕ) (m : Map Bytes Binding) (o : Bytes × Binding) : Type 0 where
  pub chosen : oldest_live now none m ≡ some o
  pub listed : lookup o.0 m ≡ some o.1
  pub live : now < o.1.expires
  pub least : FirstToExpire now m o.1.expires

pub find-Oldest :
    (now : ℕ) (m : Map Bytes Binding)
    → Distinct m
    → 0 < length (sweep now m)
    → (o : Bytes × Binding) × Oldest now m o
find-Oldest now m d h = elim (Option-cases (oldest_live now none m)) [
  | inl e ↦ absurd (ground (arith, oldest_live-some now none m (inr h)))
  | inr (o, e) ↦ elim (oldest_live-lookup now none m o d e) [
    | inl wrong ↦ cc
    | inr (found, live) ↦ (
      o,
      record {
        chosen = e;
        listed = found;
        live = live;
        least = (oldest_live-least now none m o e).0;
      },
    )
  ]
]

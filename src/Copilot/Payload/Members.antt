-- ===== src/Copilot/Payload/Members.antt =====
-- internal/copilot/executor.go: reading and writing the members of a decoded body.
use cpa_github_copilot.Common.{
  ◌≡◌, refl, inl, inr, true, false, Bool-cases, arith, Bytes, Bytes_eq, ◌==◌,
}
use cpa_github_copilot.Common.Json.{null, Fields, end, field}
use cpa_github_copilot.Copilot.Terminal.{get}
use cpa_github_copilot.Copilot.Terminal.Members.{apart}
use cpa_github_copilot.Copilot.Payload.{has_field, remove, is_end}

pub get-remove : (key : Bytes) (fields : Fields) → get key (remove key fields) ≡ null
unfolding get remove
get-remove key end = refl
get-remove key (field k w fields) = elim (Bool-cases (k == key)) [
  | inl e ↦ rw (remove, e) (get-remove key fields)
  | inr e ↦ rw (remove, get, e, e) (get-remove key fields)
]

pub get-remove_other :
    (key other : Bytes) (fields : Fields)
    → (key == other) ≡ false
    → get other (remove key fields) ≡ get other fields
unfolding get remove
get-remove_other key other end h = refl
get-remove_other key other (field k w fields) h = elim (Bool-cases (k == key)) [
  | inl e ↦ rw (remove, get, e, apart k key other e h) (get-remove_other key other fields h)
  | inr e ↦ rw (remove, e, get-remove_other key other fields h) refl
]

pub get-missing :
    (key : Bytes) (fields : Fields) → has_field key fields ≡ false → get key fields ≡ null
unfolding get has_field
get-missing key end h = refl
get-missing key (field k v fields) h = elim (Bool-cases (k == key)) [
  | inl e ↦ absurd (ground (arith, h, e))
  | inr e ↦ rw (get, e) (get-missing key fields (ground (arith, h, e)))
]

-- An empty object has no members to read.
pub is_end-get : (key : Bytes) (fields : Fields) → is_end fields ≡ true → get key fields ≡ null
unfolding get
is_end-get key end h = refl
is_end-get key (field k v fields) h = absurd (ground (arith, h))

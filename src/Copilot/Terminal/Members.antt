-- ===== src/Copilot/Terminal/Members.antt =====
-- internal/copilot/stream.go: members that are written into a decoded event.
use cpa_github_copilot.Common.{
  ◌≡◌, refl, sym, subst, inl, inr, true, false, Bool-cases, if◌then◌else◌, Bytes, Bytes_eq, ◌==◌,
  eq_self, eq→path,
}
use cpa_github_copilot.Common.Json.{Json, Fields, end, field}
use cpa_github_copilot.Copilot.Terminal.{get, put}

pub get-put : (key : Bytes) (v : Json) (fields : Fields) → get key (put key v fields) ≡ v
unfolding get put
get-put key v end = rw (eq_self key) refl
get-put key v (field k w fields) = elim (Bool-cases (k == key)) [
  | inl e ↦ rw (put, get, e, e) refl
  | inr e ↦ rw (put, get, e, e) (get-put key v fields)
]

pub apart :
    (k key other : Bytes) → (k == key) ≡ true → (key == other) ≡ false → (k == other) ≡ false
apart k key other e h = subst (λ t. (t == other) ≡ false) (sym (eq→path k key e)) h

pub get-put_other :
    (key other : Bytes) (v : Json) (fields : Fields)
    → (key == other) ≡ false
    → get other (put key v fields) ≡ get other fields
unfolding get put
get-put_other key other v end h = rw h refl
get-put_other key other v (field k w fields) h = elim (Bool-cases (k == key)) [
  | inl e ↦ rw (put, get, e, apart k key other e h) refl
  | inr e ↦ rw (put, e, get-put_other key other v fields h) refl
]

pub get-put_lem :
    (key other : Bytes) (v : Json) (fields : Fields)
    → get other (put key v fields) ≡ (if key == other then v else get other fields)
get-put_lem key other v fields = elim (Bool-cases (key == other)) [
  | inl e ↦
      rw e (subst (λ k. get k (put key v fields) ≡ v) (eq→path key other e) (get-put key v fields))
  | inr e ↦ rw e (get-put_other key other v fields e)
]

-- ===== src/App/Candidates/Sticky.antt =====
-- internal/app/server.go: the sessions and the accounts they are bound to.
use cpa_github_copilot.Common.{
  ℕ, ◌+◌, ◌≡◌, refl, ◌∙◌, ap, ◌≢◌, inl, inr, not, ◌&&◌, ◌||◌, Bool, true, none, some, List, [], ◌∷◌,
  ◌++◌, arith, is_some, any, keep_if, take, drop, take-append-drop, sort, place, ◌==◌, Bytes,
  Bytes_eq, bytes_eq_iff, lookup, Option-cases, Bool-cases,
}
use cpa_github_copilot.App.Account.{Account}
use cpa_github_copilot.App.Affinity.{Binding, is_expired, lifetime}
use cpa_github_copilot.App.Affinity.Eviction.{bind_session_locked-lookup}
use cpa_github_copilot.App.Candidates.{
  Scheduler, Routing, round_robin, fill_first, is_available, id_before, priority_before, rotate,
  rotated, next_sequence, ranked, extract, promote, bound_id, reserve, candidates,
}
use cpa_github_copilot.App.Candidates.Order.{promote-cases, ranked-Sorted}

-- An account of the list has the id.
abbrev pub has_id : Bytes → List Account → Bool
has_id id out = any (λ a. a.id == id) out

any-append {ℓ} :
    {A : Type ℓ} (p : A → Bool) (xs ys : List A) → any p (xs ++ ys) ≡ (any p xs || any p ys)
any-append p [] ys = refl
any-append p (x ∷ xs) ys = ground (arith, any-append p xs ys)

any-place {ℓ} :
    {A : Type ℓ} (before : A → A → Bool) (p : A → Bool) (a : A) (bs : List A)
    → any p (place before a bs) ≡ (p a || any p bs)
unfolding place
any-place before p a [] = refl
any-place before p a (b ∷ bs) = ground (arith, any-place before p a bs)

any-sort {ℓ} :
    {A : Type ℓ} (before : A → A → Bool) (p : A → Bool) (as' : List A)
    → any p (sort before as') ≡ any p as'
unfolding sort
any-sort before p [] = refl
any-sort before p (a ∷ as') =
    ground (arith, any-sort before p as', any-place before p a (sort before as'))

any-rotate {ℓ} : {A : Type ℓ} (p : A → Bool) (n : ℕ) (xs : List A) → any p (rotate n xs) ≡ any p xs
unfolding rotate
any-rotate p n xs = ground (
  arith,
  any-append p (drop n xs) (take n xs),
  any-append p (take n xs) (drop n xs),
  ap (any p) (take-append-drop n xs),
)

any-rotated :
    (p : Account → Bool) (r : Routing) (n : ℕ) (out : List Account)
    → any p (rotated r n out) ≡ any p out
unfolding rotated
any-rotated p round_robin n [] = refl
any-rotated p round_robin n (a ∷ out) = any-rotate p _ (a ∷ out)
any-rotated p fill_first n out = refl

has_id-ranked :
    (id : Bytes) (s : Scheduler) (now : ℕ)
    → has_id id (ranked s now) ≡ has_id id (keep_if (is_available now) s.accounts)
unfolding ranked
has_id-ranked id s now =
    let p : Account → Bool = λ a. a.id == id in
    let available = keep_if (is_available now) s.accounts in
    any-sort priority_before p _
    ∙ any-rotated p s.routing (next_sequence s.sequence) (sort id_before available)
    ∙ any-sort id_before p available

extract_found : (id : Bytes) (out : List Account) → is_some (extract id out) ≡ has_id id out
unfolding extract
extract_found id [] = refl
extract_found id (a ∷ out) = ground (arith, extract_found id out)

promote_found :
    (id : Bytes) (out : List Account)
    → has_id id out ≡ true
    → (promoted : List Account) × (promote (some id) out ≡ some promoted)
unfolding promote
promote_found id out h = elim (Option-cases (extract id out)) [
  | inl e ↦ absurd (ground (arith, extract_found id out))
  | inr ((a, others), e) ↦ (a ∷ others, rw (e, promote))
]

-- A binding of the session to the first candidate that is still live.
record Bound (s : Scheduler) (session : Bytes) (now : ℕ) (a : Account) : Type 0 where
  binding : Binding
  found : lookup session s.affinity ≡ some binding
  same : binding.id ≡ a.id

bound_id-found :
    (s : Scheduler) (session id : Bytes) (now : ℕ)
    → bound_id s session now ≡ some id
    → (b : Binding) × (lookup session s.affinity ≡ some b) × (b.id ≡ id)
unfolding bound_id
bound_id-found s session id now h = elim (Option-cases (lookup session s.affinity)) [
  | inl e ↦ absurd (ground arith)
  | inr (b, e) ↦ (b, e, ground arith)
]

candidates-Bound :
    (s : Scheduler) (session : Bytes) (now : ℕ) (a : Account) (rest : List Account)
    → (s.session_affinity && not (session == [])) ≡ true
    → (candidates s session now).1 ≡ a ∷ rest
    → Bound (candidates s session now).0 session now a
unfolding candidates
candidates-Bound s session now a rest on h =
    elim (Option-cases (promote (bound_id s session now) (ranked s now))) [
      | inl e ↦
          let first : ranked s now ≡ a ∷ rest = rw (on, e, candidates) at h in
          rw (on, e, candidates)
            (rw (first, reserve)
              (record {
                binding = record { id = a.id; expires = now + lifetime s.session_affinity_ttl };
                found =
                    bind_session_locked-lookup s.session_affinity_ttl s.affinity session a.id now;
                same = refl;
              }))
      | inr (promoted, e) ↦
          let all : promoted ≡ a ∷ rest = rw (on, e, candidates) at h in
          let (b, others, split, bound, _) =
            promote-cases (bound_id s session now) (ranked s now) promoted e
              (ranked-Sorted s now) in
          let (binding, found, same) = bound_id-found s session b.id now bound in
          let heads : b ≡ a = ground (arith, all, split) in
          rw (on, e, candidates)
            (record { binding = binding; found = found; same = same ∙ ap Account.id heads })
    ]

bound_id_live :
    (t : Scheduler) (session : Bytes) (later : ℕ) (b : Binding)
    → lookup session t.affinity ≡ some b
    → bound_id t session later ≢ none
    → bound_id t session later ≡ some b.id
unfolding bound_id
bound_id_live t session later b found live = elim (Bool-cases (is_expired later b)) [
  | inl gone ↦ absurd (live (rw (found, gone, bound_id) refl))
  | inr lives ↦ rw (found, lives, bound_id) refl
]

candidates_promoted :
    (t : Scheduler) (session id : Bytes) (later : ℕ)
    → (t.session_affinity && not (session == [])) ≡ true
    → bound_id t session later ≡ some id
    → has_id id (ranked t later) ≡ true
    → (b : Account) × (others : List Account) × ((candidates t session later).1 ≡ b ∷ others)
      × (b.id ≡ id)
      × ((candidates t session later).0.affinity ≡ t.affinity)
unfolding candidates
candidates_promoted t session id later on bound usable =
    let (promoted, e) = promote_found id (ranked t later) usable in
    let (b, others, split, same, _) =
      promote-cases (some id) (ranked t later) promoted e (ranked-Sorted t later) in
    (
      b,
      others,
      rw (on, bound, e, candidates) split,
      ground arith,
      rw (on, bound, e, candidates) refl,
    )

named_session :
    (on : Bool) (session : Bytes) → on ≡ true → session ≢ [] → (on && not (session == [])) ≡ true
named_session on session h named = ground (arith, bytes_eq_iff session [])

-- A session sticks: if a request of a session tried the account `a` first, then a later one, in any
-- state of the accounts in which `a` is still available and whose affinity table is still that of
-- the first request, tries `a`'s account first too, as long as the binding has not expired; and it
-- leaves the table as it is.
pub session_sticks :
    (s t : Scheduler) (session : Bytes) (now later : ℕ) (a : Account) (rest : List Account)
    → s.session_affinity ≡ true
    → t.session_affinity ≡ true
    → session ≢ []
    → (candidates s session now).1 ≡ a ∷ rest
    → t.affinity ≡ (candidates s session now).0.affinity
    → bound_id t session later ≢ none
    → has_id a.id (keep_if (is_available later) t.accounts) ≡ true
    → (b : Account) × (others : List Account) × ((candidates t session later).1 ≡ b ∷ others)
      × (b.id ≡ a.id)
      × ((candidates t session later).0.affinity ≡ t.affinity)
session_sticks s t session now later a rest on on' named first kept live usable =
    let bound =
      candidates-Bound s session now a rest (named_session s.session_affinity session on named)
        first in
    let found : lookup session t.affinity ≡ some bound.binding = rw kept bound.found in
    let id : bound_id t session later ≡ some a.id =
      bound_id_live t session later bound.binding found live ∙ ap some bound.same in
    candidates_promoted t session a.id later (named_session t.session_affinity session on' named) id
      (has_id-ranked a.id t later ∙ usable)

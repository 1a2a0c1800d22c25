-- ===== src/App/Candidates/Order.antt =====
-- internal/app/server.go: which accounts `candidates` returns, and in what order.
use mathlib.Core.List.{Perm, perm_append_comm}
use mathlib.Core.List.Perm
use cpa_github_copilot.Common.{
  ℕ, ◌%◌, ◌≡◌, sym, ap, subst, ◌⊎◌, inl, inr, not, ◌&&◌, true, false, Option, none, some, List, [],
  ◌∷◌, ◌++◌, arith, length, take, drop, take-append-drop, keep_if, All, sort, Sorted, sort-perm,
  sort-Sorted, ◌≤ℤ◌, ◌==◌, Bytes, Bytes_eq, eq→path, Option-cases, Bool-cases,
}
use cpa_github_copilot.App.Account.{Account}
use cpa_github_copilot.App.Candidates.{
  Scheduler, Routing, round_robin, fill_first, is_available, id_before, priority_before, rotate,
  rotated, next_sequence, ranked, extract, promote, bound_id, candidates,
}

rotate-perm {ℓ} : {A : Type ℓ} (n : ℕ) (xs : List A) → Perm (rotate n xs) xs
unfolding rotate
rotate-perm n xs =
    subst (Perm (drop n xs ++ take n xs)) (take-append-drop n xs)
      (perm_append_comm (drop n xs) (take n xs))

rotated-perm : (r : Routing) (n : ℕ) (xs : List Account) → Perm (rotated r n xs) xs
unfolding rotated
rotated-perm round_robin n [] = Perm.refl []
rotated-perm round_robin n (a ∷ xs) = rotate-perm (n % length (a ∷ xs)) (a ∷ xs)
rotated-perm fill_first n xs = Perm.refl xs

ranked-perm :
    (s : Scheduler) (now : ℕ) → Perm (ranked s now) (keep_if (is_available now) s.accounts)
unfolding ranked
ranked-perm s now =
    let available = keep_if (is_available now) s.accounts in
    let named = sort id_before available in
    let turned = rotated s.routing (next_sequence s.sequence) named in
    Perm.trans (sort-perm priority_before turned) (
      Perm.trans (rotated-perm s.routing (next_sequence s.sequence) named)
        (sort-perm id_before available))

-- What a result of `extract` is.
abbrev Extracts : Bytes → List Account → Option (Account × List Account) → Type 0
Extracts id out none = Unit
Extracts id out (some (a, others)) = Perm (a ∷ others) out × (a.id ≡ id)

Extracts-skip :
    (id : Bytes) (b : Account) (out : List Account) (r : Option (Account × List Account))
    → Extracts id out r
    → Extracts id
        (b ∷ out)
        (elim r [ none ↦ none | some (found, others) ↦ some (found, b ∷ others) ])
Extracts-skip id b out none h = tt
Extracts-skip id b out (some (a, others)) h =
    (Perm.trans (Perm.swap b a others) (Perm.cons b h.0), h.1)

pub extract-Extracts : (id : Bytes) (out : List Account) → Extracts id out (extract id out)
unfolding extract
extract-Extracts id [] = tt
extract-Extracts id (b ∷ out) = elim (Bool-cases (b.id == id)) [
  | inl e ↦ rw e (Perm.refl (b ∷ out), eq→path b.id id e)
  | inr e ↦ rw e (Extracts-skip id b out (extract id out) (extract-Extracts id out))
]

promote-perm :
    (id : Option Bytes) (out promoted : List Account)
    → promote id out ≡ some promoted
    → Perm promoted out
unfolding promote
promote-perm none out promoted h = cc
promote-perm (some id) out promoted h = elim (Option-cases (extract id out)) [
  | inl e ↦ absurd (ground arith)
  | inr ((a, others), e) ↦
      let found : Extracts id out (some (a, others)) =
        subst (Extracts id out) e (extract-Extracts id out) in
      let same : (a ∷ others) ≡ promoted = ground arith in subst (λ l. Perm l out) same found.0
]

-- No account is lost, served twice or made up by the ordering: what `candidates` returns is, in
-- some order, exactly the accounts that are not deleted, not disabled, not blocked by the budget
-- guard and past their cooldown.
pub candidates-perm :
    (s : Scheduler) (session : Bytes) (now : ℕ)
    → Perm (candidates s session now).1 (keep_if (is_available now) s.accounts)
unfolding candidates
candidates-perm s session now = elim (Bool-cases (s.session_affinity && not (session == []))) [
  | inr off ↦ rw (off, candidates) (ranked-perm s now)
  | inl on ↦ elim (Option-cases (promote (bound_id s session now) (ranked s now))) [
    | inl e ↦ rw (on, e, candidates) (ranked-perm s now)
    | inr (promoted, e) ↦
        rw (on, e, candidates)
          (Perm.trans (promote-perm (bound_id s session now) (ranked s now) promoted e)
            (ranked-perm s now))
  ]
]

priority_trans :
    (a b c : Account)
    → priority_before b a ≡ false
    → priority_before c b ≡ false
    → priority_before c a ≡ false
priority_trans a b c h k = ground arith

priority_asym : (a b : Account) → priority_before a b ≡ true → priority_before b a ≡ false
priority_asym a b h = ground arith

pub ranked-Sorted : (s : Scheduler) (now : ℕ) → Sorted priority_before (ranked s now)
unfolding ranked
ranked-Sorted s now = sort-Sorted priority_before priority_trans priority_asym _

abbrev Rest {κ} : (List Account → Type κ) → Option (Account × List Account) → Type κ
Rest P none = Unit
Rest P (some (a, others)) = P others

extract-All :
    (P : Account → Type 0) (id : Bytes) (out : List Account)
    → All P out
    → Rest (All P) (extract id out)
unfolding extract
extract-All P id [] h = tt
extract-All P id (b ∷ out) h = elim (Bool-cases (b.id == id)) [
  | inl e ↦ rw e h.1
  | inr e ↦ rw e (skip (extract id out) (extract-All P id out h.1))
]
  where
    skip :
        (r : Option (Account × List Account))
        → Rest (All P) r
        → Rest (All P) (elim r [ none ↦ none | some (found, others) ↦ some (found, b ∷ others) ])
    skip none k = tt
    skip (some (a, others)) k = (h.0, k)

extract-Sorted :
    (id : Bytes) (out : List Account)
    → Sorted priority_before out
    → Rest (Sorted priority_before) (extract id out)
unfolding extract
extract-Sorted id [] h = tt
extract-Sorted id (b ∷ out) h = elim (Bool-cases (b.id == id)) [
  | inl e ↦ rw e h.1
  | inr e ↦ rw e (
      skip (extract id out) (extract-All (λ c. priority_before c b ≡ false) id out h.0)
        (extract-Sorted id out h.1))
]
  where
    skip :
        (r : Option (Account × List Account))
        → Rest (All (λ c. priority_before c b ≡ false)) r
        → Rest (Sorted priority_before) r
        → Rest
            (Sorted priority_before)
            (elim r [ none ↦ none | some (found, others) ↦ some (found, b ∷ others) ])
    skip none j k = tt
    skip (some (a, others)) j k = (j, k)

-- A promoted list, taken apart.
pub promote-cases :
    (id : Option Bytes) (out promoted : List Account)
    → promote id out ≡ some promoted
    → Sorted priority_before out
    → (a : Account) × (rest : List Account) × (promoted ≡ a ∷ rest)
      × (id ≡ some a.id)
      × Sorted priority_before rest
unfolding promote
promote-cases none out promoted h k = cc
promote-cases (some id) out promoted h k = elim (Option-cases (extract id out)) [
  | inl e ↦ absurd (ground arith)
  | inr ((a, others), e) ↦
      let found : Extracts id out (some (a, others)) =
        subst (Extracts id out) e (extract-Extracts id out) in
      let kept : Sorted priority_before others =
        subst (Rest (Sorted priority_before)) e (extract-Sorted id out k) in
      (a, others, ground arith, ap some (sym found.1), kept)
]

-- No account stands behind one with a lower priority.
abbrev pub Descending : List Account → Type 0
Descending [] = Unit
Descending (a ∷ out) = All (λ b. b.priority ≤ℤ a.priority) out × Descending out

behind-lower :
    (a : Account) (out : List Account)
    → All (λ b. priority_before b a ≡ false) out
    → All (λ b. b.priority ≤ℤ a.priority) out
behind-lower a [] h = tt
behind-lower a (b ∷ out) h = (ground (arith, h.0), behind-lower a out h.1)

Sorted-Descending : (out : List Account) → Sorted priority_before out → Descending out
Sorted-Descending [] h = tt
Sorted-Descending (a ∷ out) h = (behind-lower a out h.0, Sorted-Descending out h.1)

-- Higher priorities come first: no candidate stands behind one with a lower priority, except that
-- the bound account of a session is moved to the front, and the rest keep that order.
pub candidates-Descending :
    (s : Scheduler) (session : Bytes) (now : ℕ)
    → Descending (candidates s session now).1
      ⊎ ((a : Account) × (rest : List Account) × ((candidates s session now).1 ≡ a ∷ rest)
          × (bound_id s session now ≡ some a.id)
          × Descending rest)
unfolding candidates
candidates-Descending s session now =
    elim (Bool-cases (s.session_affinity && not (session == []))) [
      | inr off ↦
          inl (rw (off, candidates) (Sorted-Descending (ranked s now) (ranked-Sorted s now)))
      | inl on ↦ elim (Option-cases (promote (bound_id s session now) (ranked s now))) [
        | inl e ↦
            inl (rw (on, e, candidates) (Sorted-Descending (ranked s now) (ranked-Sorted s now)))
        | inr (promoted, e) ↦
            let (a, rest, split, bound, kept) =
              promote-cases (bound_id s session now) (ranked s now) promoted e
                (ranked-Sorted s now) in
            inr (a, rest, rw (on, e, candidates) split, bound, Sorted-Descending rest kept)
      ]
    ]

-- ===== src/App/Failover/Answers.antt =====
-- internal/app/server.go: the loop over the accounts, described visit by visit.
use cpa_github_copilot.Common.{
  ℕ, ◌≡◌, refl, sym, subst, ap, inl, inr, Bool, true, false, not, ◌||◌, Option, none, some, List,
  [], ◌∷◌, arith, any, if◌then◌else◌, leb, nat_eq, Bool-cases, Option-cases, Bytes, Bytes_eq, ◌==◌,
}
use cpa_github_copilot.App.Account.{Account}
use cpa_github_copilot.App.Failover.{
  status_of, Execution, fails, responds, streams, Visit, is_blocked, retry_account, Answer,
  abandoned, answered, streaming, refused, unavailable, Outcome, ends_with, exhausted, settle,
  try_accounts,
}

-- What becomes of a visit: it is passed over, ends by the client's going, by an error, or reaches the
-- engine.
pub data Fate : Type 0 where
  skipped cut attempted : Fate
  errored : Option ℕ → Fate

pub fate : Bytes → Visit → Fate
fate model v =
    if v.canceled || v.canceled_after_quota
    then cut
    else if is_blocked v.after_quota
    then skipped
    else elim v.refresh_error [
      | some error ↦ errored error
      | none ↦
          if v.canceled_after_catalog
          then cut
          else if is_blocked v.after_catalog || not (any (λ id. id == model) v.models)
          then skipped
          else attempted
    ]

-- The statuses on which the next account is tried.
pub is_retried : ℕ → Bool
is_retried status = nat_eq status 401 || nat_eq status 403 || nat_eq status 429 || leb 500 status

-- The error that a visit leaves behind, and the answer if it decides the request.
abbrev pub Step : Type 0
Step = Option (Option ℕ) × Option Answer

pub step_of : Account → Execution → Step
unfolding is_retried
step_of a (responds body) = (none, some (answered a body))
step_of a streams = (none, some (streaming a))
step_of a (fails error) =
    (some error, if is_retried (status_of error) then none else some (refused a (status_of error)))

pub visit_step : Bytes → Visit → Step
unfolding fate step_of
visit_step model v = elim (fate model v) [
  | skipped ↦ (none, none)
  | cut ↦ (none, some abandoned)
  | errored error ↦ (some error, none)
  | attempted ↦ step_of v.after_catalog v.execution
]

abbrev pub or_last : Option (Option ℕ) → Option (Option ℕ) → Option (Option ℕ)
or_last last none = last
or_last last (some error) = some error

pub decided : Step → Option (Option ℕ) → (Option (Option ℕ) → Answer) → Answer
decided (error, some answer) last rest = answer
decided (error, none) last rest = rest (or_last last error)

-- The answer of the first visit that decides; if none does, the code of the last error, or 503.
pub decision : Bytes → Option (Option ℕ) → List Visit → Answer
unfolding visit_step decided
decision model last [] = unavailable (exhausted last)
decision model last (v ∷ visits) =
    decided (visit_step model v) last (λ last'. decision model last' visits)

retry_account-retried :
    (now : ℕ) (a : Account) (status : ℕ) → (retry_account now a status).1 ≡ is_retried status
unfolding retry_account is_retried
retry_account-retried now a status = ground arith

-- One turn of the loop by the fate of its visit.
abbrev turn : ℕ → Bytes → Option (Option ℕ) → Visit → Fate → List Visit → Outcome
turn now model last v skipped visits = try_accounts now model last visits
turn now model last v cut visits = ends_with abandoned
turn now model last v (errored error) visits = try_accounts now model (some error) visits
turn now model last v attempted visits =
    settle now v.after_catalog v.execution (λ error. try_accounts now model error visits)

try_accounts-turn :
    (now : ℕ) (model : Bytes) (last : Option (Option ℕ)) (v : Visit) (visits : List Visit)
    → try_accounts now model last (v ∷ visits) ≡ turn now model last v (fate model v) visits
unfolding try_accounts fate
try_accounts-turn now model last v visits =
    elim (Bool-cases (v.canceled || v.canceled_after_quota)) [
      | inl e ↦ rw (try_accounts, fate, e) refl
      | inr e ↦ elim (Bool-cases (is_blocked v.after_quota)) [
        | inl b ↦ rw (try_accounts, fate, e, b) refl
        | inr b ↦ elim (Option-cases v.refresh_error) [
          | inr (error, r) ↦ simp (try_accounts, fate, e, b, r)
          | inl r ↦ elim (Bool-cases v.canceled_after_catalog) [
            | inl c ↦ simp (try_accounts, fate, e, b, r, c)
            | inr c ↦
                elim (Bool-cases
                  (is_blocked v.after_catalog || not (any (λ id. id == model) v.models))) [
                    | inl u ↦ simp (try_accounts, fate, e, b, r, c, u)
                    | inr u ↦ simp (try_accounts, fate, e, b, r, c, u)
                  ]
          ]
        ]
      ]
    ]

pub is_attempted : Fate → Bool
is_attempted attempted = true
is_attempted _ = false

-- The accounts whose visits reach the engine, up to the first visit that decides.
pub asked : Bytes → List Visit → List Account
unfolding visit_step is_attempted
asked model [] = []
asked model (v ∷ visits) =
    let rest = asked model visits in
    let later = elim (visit_step model v).1 as (λ _. List Account) [ some a ↦ [] | none ↦ rest ] in
    if is_attempted (fate model v) then v.after_catalog ∷ later else later

-- What the loop answers, and whom it asks.
abbrev pub Decided : Bytes → Option (Option ℕ) → List Visit → Outcome → Type 0
Decided model last visits o =
    (o.answer ≡ decision model last visits) × (o.executed ≡ asked model visits)

-- The step of a visit by its fate.
abbrev fated : Visit → Fate → Step
fated v skipped = (none, none)
fated v cut = (none, some abandoned)
fated v (errored error) = (some error, none)
fated v attempted = step_of v.after_catalog v.execution

visit_step-fated :
    (model : Bytes) (v : Visit) (f : Fate) → fate model v ≡ f → visit_step model v ≡ fated v f
unfolding visit_step
visit_step-fated model v skipped h = rw (visit_step, h) refl
visit_step-fated model v cut h = rw (visit_step, h) refl
visit_step-fated model v (errored error) h = rw (visit_step, h) refl
visit_step-fated model v attempted h = rw (visit_step, h) refl

-- By the step and the fate, the specification of one more visit.
abbrev Expected : Bytes → Option (Option ℕ) → Visit → List Visit → Step → Bool → Outcome → Type 0
Expected model last v visits r b o =
    (o.answer ≡ decided r last (λ last'. decision model last' visits))
    × (o.executed ≡ (
        let later = elim r.1 as (λ _. List Account) [ some a ↦ [] | none ↦ asked model visits ] in
        if b then v.after_catalog ∷ later else later))

Expected-Decided :
    (model : Bytes) (last : Option (Option ℕ)) (v : Visit) (visits : List Visit) (f : Fate)
    (o : Outcome)
    → fate model v ≡ f
    → Expected model last v visits (fated v f) (is_attempted f) o
    → Decided model last (v ∷ visits) o
unfolding decision asked
Expected-Decided model last v visits f o h e =
    subst (λ r. Expected model last v visits r (is_attempted (fate model v)) o)
      (sym (visit_step-fated model v f h))
      (subst (λ g. Expected model last v visits (fated v f) (is_attempted g) o) (sym h) e)

settle-Expected :
    (now : ℕ) (model : Bytes) (last : Option (Option ℕ)) (v : Visit) (visits : List Visit)
    (e : Execution) (next : Option (Option ℕ) → Outcome)
    → ((error : Option ℕ) → Decided model (some error) visits (next (some error)))
    → Expected model last v visits
        (step_of v.after_catalog e)
        true
        (settle now v.after_catalog e next)
unfolding settle step_of decided
settle-Expected now model last v visits (responds body) next h = (refl, refl)
settle-Expected now model last v visits streams next h = (refl, refl)
settle-Expected now model last v visits (fails error) next h =
    let same = retry_account-retried now v.after_catalog (status_of error) in
    elim (Bool-cases (is_retried (status_of error))) [
      | inl e ↦ rw (settle, same, e) ((h error).0, ap (λ l. v.after_catalog ∷ l) (h error).1)
      | inr e ↦ rw (settle, same, e) (refl, refl)
    ]

turn-Expected :
    (now : ℕ) (model : Bytes) (last : Option (Option ℕ)) (v : Visit) (f : Fate)
    (visits : List Visit)
    → ((last' : Option (Option ℕ))
        → Decided model last' visits (try_accounts now model last' visits))
    → Expected model last v visits (fated v f) (is_attempted f) (turn now model last v f visits)
unfolding decided is_attempted
turn-Expected now model last v skipped visits h = h last
turn-Expected now model last v cut visits h = (refl, refl)
turn-Expected now model last v (errored error) visits h = h (some error)
turn-Expected now model last v attempted visits h =
    settle-Expected now model last v visits v.execution
      (λ error. try_accounts now model error visits) (λ error. h (some error))

-- The loop over the accounts is a walk through the visits in their order: the first that decides
-- gives the answer (the client is gone, a response, a stream, or an error that is not to be retried),
-- and if none does it is the code of the last error, or 503. The accounts that the engine is asked to
-- serve the request are exactly those that are reached until then, not blocked, deleted or disabled
-- before and after the catalog, refreshed without an error, and listing the model.
pub try_accounts-Decided :
    (now : ℕ) (model : Bytes) (last : Option (Option ℕ)) (visits : List Visit)
    → Decided model last visits (try_accounts now model last visits)
unfolding decision asked try_accounts
try_accounts-Decided now model last [] = (refl, refl)
try_accounts-Decided now model last (v ∷ visits) =
    let f = fate model v in
    Expected-Decided model last v visits f (try_accounts now model last (v ∷ visits)) refl (
      subst (Expected model last v visits (fated v f) (is_attempted f))
        (sym (try_accounts-turn now model last v visits))
        (turn-Expected now model last v f visits
          (λ last'. try_accounts-Decided now model last' visits)))

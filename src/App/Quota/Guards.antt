-- ===== src/App/Quota/Guards.antt =====
-- internal/app/accounts.go: when the budget guard of an account is set, moved and lifted.
use cpa_github_copilot.Common.{
  ℕ, ◌≤◌, ◌<◌, ◌≡◌, ◌↔◌, refl, ◌⊎◌, ◌≢◌, inl, inr, Bool, true, false, Option, none, some, arith,
  Bytes_eq, bytes_eq_iff,
}
use cpa_github_copilot.App.Account.{Account, AccountState, Guard, Quota, QuotaAdmission}
use cpa_github_copilot.App.Quota.{
  TimeParser, parse_reset, observe, is_current, quota_commit, quota_save_failed, state_block,
  state_allow,
}

-- An observation that lifts a block with the reset time `due`.
pub record Lifts (p : TimeParser) (due now : ℕ) (obs : QuotaAdmission) : Type 0 where
  pub allows : obs.state ≡ state_allow
  pub dated : 0 < due
  pub reached : due ≤ now
  pub renewed : due < parse_reset p obs.reset_time
  pub ahead : now < parse_reset p obs.reset_time

observe-Lifts :
    (p : TimeParser) (now : ℕ) (obs : QuotaAdmission) (g : Guard)
    → g.blocked ≡ true
    → ((observe p now (some obs) g).blocked ≡ false) ↔ Lifts p g.reset_at now obs
unfolding observe
observe-Lifts p now obs g b = (
  λ h. ground (arith, bytes_eq_iff obs.state state_allow, bytes_eq_iff obs.state state_block),
  λ h. ground (arith, bytes_eq_iff obs.state state_allow, bytes_eq_iff obs.state state_block),
)

observe-blocked :
    (p : TimeParser) (now : ℕ) (admission : Option QuotaAdmission) (g : Guard)
    → g.blocked ≡ true
    → (observe p now admission g).blocked ≡ false
    → (obs : QuotaAdmission) × (admission ≡ some obs) × Lifts p g.reset_at now obs
unfolding observe
observe-blocked p now none g b h = cc
observe-blocked p now (some obs) g b h = (obs, refl, (observe-Lifts p now obs g b).0 h)

is_current-cases :
    (a : Account) (epoch : ℕ)
    → ((is_current a epoch ≡ true) × (a.deleted ≡ false) × (a.epoch ≡ epoch))
      ⊎ ((is_current a epoch ≡ false) × ((a.deleted ≡ true) ⊎ (a.epoch ≢ epoch)))
unfolding is_current
is_current-cases a epoch = ground arith

quota_commit-used :
    (p : TimeParser) (a : Account) (epoch now : ℕ) (q : Quota)
    → q.stale ≡ false
    → is_current a epoch ≡ true
    → (quota_commit p a epoch now q false).0.guard ≡ observe p now q.admission a.guard
unfolding quota_commit
quota_commit-used p a epoch now q fresh current = rw (current, fresh, quota_commit) refl

-- Whatever was committed, the guard is the old one, or that of the observation.
quota_commit-guard :
    (p : TimeParser) (a : Account) (epoch now : ℕ) (q : Quota) (failed : Bool)
    → ((quota_commit p a epoch now q failed).0.guard ≡ a.guard)
      ⊎ ((is_current a epoch ≡ true)
          × (failed ≡ false)
          × (q.stale ≡ false)
          × ((quota_commit p a epoch now q failed).0.guard ≡ observe p now q.admission a.guard))
unfolding quota_commit
quota_commit-guard p a epoch now q failed = ground arith

-- A block is lifted by one thing only: the commit of an answer to a request for this very account
-- (not deleted, same epoch), not failed and not stale, whose admission is "allow" with a reset time
-- that lies after now and after the block's own, which must be known and must have been reached.
pub quota_commit-Lifts :
    (p : TimeParser) (a : Account) (epoch now : ℕ) (q : Quota) (failed : Bool)
    → a.guard.blocked ≡ true
    → ((quota_commit p a epoch now q failed).0.guard.blocked ≡ false) ↔ (
        (a.deleted ≡ false)
        × (a.epoch ≡ epoch)
        × (failed ≡ false)
        × (q.stale ≡ false)
        × ((obs : QuotaAdmission) × (q.admission ≡ some obs) × Lifts p a.guard.reset_at now obs))
quota_commit-Lifts p a epoch now q failed b = (lifted, lifts)
  where
    lifted :
        (quota_commit p a epoch now q failed).0.guard.blocked ≡ false
        → (a.deleted ≡ false)
          × (a.epoch ≡ epoch)
          × (failed ≡ false)
          × (q.stale ≡ false)
          × ((obs : QuotaAdmission) × (q.admission ≡ some obs) × Lifts p a.guard.reset_at now obs)
    lifted h = elim (quota_commit-guard p a epoch now q failed) [
      | inl same ↦ absurd (ground arith)
      | inr (current, ok, fresh, e) ↦
          let (obs, seen, l) = observe-blocked p now q.admission a.guard b (rw (← e) h) in
          elim (is_current-cases a epoch) [
            | inl (_, here, epochs) ↦ (here, epochs, ok, fresh, (obs, seen, l))
            | inr (gone, _) ↦ cc
          ]
    ]

    lifts :
        (a.deleted ≡ false)
          × (a.epoch ≡ epoch)
          × (failed ≡ false)
          × (q.stale ≡ false)
          × ((obs : QuotaAdmission) × (q.admission ≡ some obs) × Lifts p a.guard.reset_at now obs)
        → (quota_commit p a epoch now q failed).0.guard.blocked ≡ false
    lifts (here, epochs, ok, fresh, (obs, seen, l)) =
        let current : is_current a epoch ≡ true = ground (arith, is_current-cases a epoch) in
        rw (ok, quota_commit-used p a epoch now q fresh current, seen)
          ((observe-Lifts p now obs a.guard b).1 l)

-- Until its reset time a block stands: whatever is answered and committed, it is neither lifted nor
-- is its reset time moved.
pub quota_commit_holds :
    (p : TimeParser) (a : Account) (epoch now : ℕ) (q : Quota) (failed : Bool)
    → a.guard.blocked ≡ true
    → now < a.guard.reset_at
    → ((quota_commit p a epoch now q failed).0.guard.blocked ≡ true)
      × ((quota_commit p a epoch now q failed).0.guard.reset_at ≡ a.guard.reset_at)
unfolding observe
quota_commit_holds p a epoch now q failed b early =
    elim (quota_commit-guard p a epoch now q failed) [
      | inl same ↦ rw same (b, refl)
      | inr (_, _, _, e) ↦ rw e (observe_early q.admission)
    ]
  where
    observe_early :
        (admission : Option QuotaAdmission)
        → ((observe p now admission a.guard).blocked ≡ true)
          × ((observe p now admission a.guard).reset_at ≡ a.guard.reset_at)
    observe_early none = (b, refl)
    observe_early (some obs) = ground arith

-- An answer that comes too late changes nothing: if the account was deleted, or replaced by another
-- epoch, since the request was made, the commit and the handling of a failed save leave it as it is,
-- and nothing is saved.
quota_commit_outdated :
    (p : TimeParser) (a : Account) (epoch now : ℕ) (q : Quota) (failed : Bool)
    → ((a.deleted ≡ true) ⊎ (a.epoch ≢ epoch))
    → (quota_commit p a epoch now q failed ≡ (a, none)) × (quota_save_failed a epoch ≡ a)
unfolding quota_commit quota_save_failed
quota_commit_outdated p a epoch now q failed late = ground (arith, is_current-cases a epoch)

-- What is saved is what is in force: the state handed to the state file has the identity, the guard
-- and the quota of the account that the commit leaves. And if that file cannot be written while the
-- account is still the same, the account ends up blocked, whatever was observed.
quota_commit_saved :
    (p : TimeParser) (a : Account) (epoch now : ℕ) (q : Quota) (failed : Bool) (s : AccountState)
    → (quota_commit p a epoch now q failed).1 ≡ some s
    → let a' = (quota_commit p a epoch now q failed).0 in
      (s ≡ record { identity = a'.identity; guard = a'.guard; quota = a'.quota })
      × (s.identity ≡ a.identity)
      × ((quota_save_failed a' epoch).guard.blocked ≡ true)
unfolding quota_commit quota_save_failed
quota_commit_saved p a epoch now q failed s h = ground (arith, is_current-cases a epoch)

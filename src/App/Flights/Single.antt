-- ===== src/App/Flights/Single.antt =====
-- internal/app/accounts.go: which goroutines are in the flights of an account.
use cpa_github_copilot.Common.{
  ℕ, zero, suc, ◌+◌, ◌≤◌, ◌≡◌, ◌≢◌, Bool, true, false, some, List, [], ◌∷◌, arith, get_elem?, set,
  if◌then◌else◌,
}
use cpa_github_copilot.App.Account.{Account}
use cpa_github_copilot.App.Quota.{
  TimeParser, await_flight, quota_start, quota_commit, quota_save_failed, quota_finish,
}
use cpa_github_copilot.App.Flights.{
  Phase, quota_request, quota_save, quota_end, refresh_request, catalog_request, Goroutines,
  CachedModels, Move, quota_starts, quota_commits, quota_drops, quota_saves, quota_fails,
  quota_ends, refresh_starts, refresh_ends, catalog_starts, catalog_ends, Step, moves, elsewhere,
  Reach, here, next, refresh_start, refresh_finish, catalog_start, catalog_finish,
}

-- Whether a goroutine is in the quota flight, and whether it is in the one of refresh and catalog.
abbrev pub in_quota : Phase → ℕ
in_quota (quota_request _) = 1
in_quota (quota_save _) = 1
in_quota (quota_end _) = 1
in_quota _ = 0

abbrev pub in_refresh : Phase → ℕ
in_refresh (refresh_request _) = 1
in_refresh (catalog_request _) = 1
in_refresh _ = 0

abbrev pub count : (Phase → ℕ) → List Phase → ℕ
count f [] = 0
count f (x ∷ xs) = f x + count f xs

abbrev as_count : Bool → ℕ
as_count b = if b then 1 else 0

-- A flight is marked in the account exactly when one goroutine is in it.
pub record Inv (g : Goroutines) : Type 0 where
  pub quota : count in_quota g.phases ≡ as_count g.account.quota_flight
  pub refresh : count in_refresh g.phases ≡ as_count g.account.refresh_flight

count-set :
    (f : Phase → ℕ) (xs : List Phase) (i : ℕ) (x y : Phase)
    → get_elem? xs i ≡ some x
    → count f (set xs i y) + f x ≡ count f xs + f y
count-set f [] i x y h = absurd (ground arith)
count-set f (z ∷ xs) zero x y h = ground arith
count-set f (z ∷ xs) (suc i) x y h = omega (arith, count-set f xs i x y h)

-- What a section does to the flights, against the place of its goroutine.
Balanced : Account → Phase → Account → Phase → Type 0
Balanced a from b to =
    (as_count b.quota_flight + in_quota from ≡ as_count a.quota_flight + in_quota to)
    × (as_count b.refresh_flight + in_refresh from ≡ as_count a.refresh_flight + in_refresh to)

Move-Balanced :
    {p : TimeParser} {ttl : ℕ} {a b : Account} {from to : Phase}
    → Move p ttl a from b to
    → (1 ≤ in_quota from → a.quota_flight ≡ true)
    → (1 ≤ in_refresh from → a.refresh_flight ≡ true)
    → Balanced a from b to
unfolding Balanced quota_start quota_commit quota_save_failed quota_finish refresh_start
    refresh_finish catalog_start catalog_finish
Move-Balanced (quota_starts a b now e) hq hr = ground arith
Move-Balanced (quota_commits a b epoch now q failed s e) hq hr = ground arith
Move-Balanced (quota_drops a b epoch now q failed e) hq hr = ground arith
Move-Balanced (quota_saves a epoch) hq hr = ground arith
Move-Balanced (quota_fails a epoch) hq hr = ground arith
Move-Balanced (quota_ends a epoch) hq hr = ground arith
Move-Balanced (refresh_starts a b force now e) hq hr = ground arith
Move-Balanced (refresh_ends a epoch now due) hq hr = ground arith
Move-Balanced (catalog_starts a b cached force now e) hq hr = ground arith
Move-Balanced (catalog_ends a epoch now) hq hr = ground arith

count-get_elem? :
    (f : Phase → ℕ) (xs : List Phase) (i : ℕ) (x : Phase)
    → get_elem? xs i ≡ some x
    → f x ≤ count f xs
count-get_elem? f [] i x h = absurd (ground arith)
count-get_elem? f (z ∷ xs) zero x h = ground arith
count-get_elem? f (z ∷ xs) (suc i) x h = omega (arith, count-get_elem? f xs i x h)

as_count-pos : (b : Bool) → 1 ≤ as_count b → b ≡ true
as_count-pos b h = ground arith

Step-Inv : {p : TimeParser} {ttl : ℕ} {g h : Goroutines} → Step p ttl g h → Inv g → Inv h
unfolding Balanced
Step-Inv (moves g i from to b at m) v =
    let balance =
      Move-Balanced m
        (λ inside.
          as_count-pos g.account.quota_flight
            (omega (arith, v.quota, count-get_elem? in_quota g.phases i from at)))
        (λ inside.
          as_count-pos g.account.refresh_flight
            (omega (arith, v.refresh, count-get_elem? in_refresh g.phases i from at))) in
    record {
      quota = omega (arith, v.quota, balance.0, count-set in_quota g.phases i from to at);
      refresh = omega (arith, v.refresh, balance.1, count-set in_refresh g.phases i from to at);
    }
Step-Inv (elsewhere g b same) v = ground arith

Reach-Inv : {p : TimeParser} {ttl : ℕ} {g h : Goroutines} → Inv g → Reach p ttl g h → Inv h
Reach-Inv v here = v
Reach-Inv v (next r st) = Step-Inv st (Reach-Inv v r)

-- No goroutine is in a flight, and none is marked.
pub record Quiet (g : Goroutines) : Type 0 where
  pub no_quota : count in_quota g.phases ≡ 0
  pub no_refresh : count in_refresh g.phases ≡ 0
  pub quota_free : g.account.quota_flight ≡ false
  pub refresh_free : g.account.refresh_flight ≡ false

-- However the sections of any number of goroutines and of the other operations interleave: of one
-- account, at most one quota request is in progress, and at most one request of refresh and catalog
-- together. And no flight is left marked behind: while no goroutine is in a flight, the next turn
-- of checkQuota, refresh or catalog does not wait for one.
pub single_flight :
    (p : TimeParser) (ttl : ℕ) (g h : Goroutines)
    → Quiet g
    → Reach p ttl g h
    → (count in_quota h.phases ≤ 1)
      × (count in_refresh h.phases ≤ 1)
      × (count in_quota h.phases ≡ 0 → (now : ℕ) → (quota_start h.account now).1 ≢ await_flight)
      × (count in_refresh h.phases ≡ 0
          → (force : Bool) (cached : CachedModels) (now : ℕ)
          → ((refresh_start h.account force now).1 ≢ await_flight)
            × ((catalog_start ttl h.account cached force now).1 ≢ await_flight))
unfolding quota_start refresh_start catalog_start
single_flight p ttl g h quiet r =
    let v : Inv h =
      Reach-Inv (record { quota = ground (arith, quiet); refresh = ground (arith, quiet) }) r in
    (
      ground (arith, v),
      ground (arith, v),
      λ none_in now e. ground (arith, v),
      λ none_in force cached now. (λ e. ground (arith, v), λ e. ground (arith, v)),
    )

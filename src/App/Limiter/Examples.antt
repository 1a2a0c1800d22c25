-- ===== src/App/Limiter/Examples.antt =====
-- Runs of the limiter, and its theorems at concrete inputs.
use cpa_github_copilot.Common.{
  ℕ, ◌+◌, ◌-◌, ◌*◌, ◌≡◌, refl, ◌≢◌, ◌⊎◌, Bool, true, false, some, List, [], ◌∷◌, arith, Bytes,
  codes, lookup, bytes_eq,
}
use cpa_github_copilot.App.ClientKey.{AuthClient, AuthClient_eq, v4, client_eq}
use cpa_github_copilot.App.Limiter.{
  AuthLimiter, too_many_auth_failures, blocked, fail, is_known, admit_credential, retry_after,
  auth_block_duration,
}
use cpa_github_copilot.App.Limiter.Laws.{WellFormed, admit_credential-WellFormed}
use cpa_github_copilot.App.Limiter.Blocking.{fail_all, tenth_failure_blocks, fail_isolated}
use cpa_github_copilot.App.Limiter.Admission.{Attempt, admit_all, blocked_no_oracle}

abbrev empty : AuthLimiter
empty = record { clients = []; known = [] }

abbrev guesser : AuthClient
guesser = record { scope = codes "api"; addr = v4 0x08080808 }

abbrev colleague : AuthClient
colleague = record { scope = codes "api"; addr = v4 0x09090909 }

-- In place of SHA-256.
abbrev same_bytes : Bytes → Bytes
same_bytes b = b

abbrev second : ℕ
second = 1_000_000_000

abbrev held : AuthLimiter
held = record {
  clients =
      (guesser, record { count = 0; window = second; blocked_till = second + auth_block_duration })
      ∷ [];
  known = [];
}

admit_credential-WellFormed_example :
    WellFormed (admit_credential same_bytes held colleague (codes "guess") false (2 * second)).0
admit_credential-WellFormed_example =
    admit_credential-WellFormed same_bytes held colleague (codes "guess") false (2 * second)
      (record {
        clients_bounded = omega arith;
        known_bounded = omega arith;
        counts_bounded = omega arith;
      })

abbrev eight_times : List ℕ
eight_times = 2 ∷ 3 ∷ 4 ∷ 5 ∷ 6 ∷ 7 ∷ 8 ∷ 9 ∷ []

tenth_failure_blocks_example :
    blocked (fail (fail_all empty guesser (1 ∷ eight_times)) guesser 10).0 guesser 20
    ≡ 10 + auth_block_duration - 20
unfolding lookup
tenth_failure_blocks_example =
    (tenth_failure_blocks empty guesser 1 10 20 eight_times refl (omega arith) refl (omega arith)
      (omega arith)).2

held_for : blocked held guesser (2 * second) ≡ auth_block_duration - second
unfolding blocked lookup client_eq bytes_eq
held_for = refl

different : colleague ≢ guesser
different e = ground arith

fail_isolated_example :
    lookup guesser (fail held colleague (2 * second)).0.clients ≡ lookup guesser held.clients
fail_isolated_example =
    fail_isolated held colleague guesser (2 * second) different (omega (arith, held_for))

guesses : List Attempt
guesses =
    record { client = guesser; given = codes "guess"; valid = false; at = 2 * second }
    ∷ record { client = colleague; given = codes "wrong"; valid = false; at = 3 * second }
    ∷ []

blocked_no_oracle_example :
    let l' = admit_all same_bytes held guesses in
    (lookup guesser l'.clients
      ≡ some (record { count = 0; window = second; blocked_till = second + auth_block_duration }))
    × (blocked l' guesser (4 * second) ≡ second + auth_block_duration - 4 * second)
    × ((is_known same_bytes l' guesser.scope (codes "secret") ≡ true)
        ⊎ ((valid : Bool)
            → admit_credential same_bytes l' guesser (codes "secret") valid (4 * second) ≡ (
              l',
              too_many_auth_failures (retry_after (second + auth_block_duration - 4 * second)),
              false,
            )))
unfolding guesses lookup client_eq bytes_eq
blocked_no_oracle_example =
    blocked_no_oracle same_bytes held guesser
      (record { count = 0; window = second; blocked_till = second + auth_block_duration }) guesses
      (codes "secret") (4 * second) refl (omega arith, (omega arith, tt)) (omega arith)

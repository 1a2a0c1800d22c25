-- ===== src/App/Persist.antt =====
-- internal/app/accounts.go: `updateAccount`, `persistAuth` and `deleteAccount`. Each reads the
-- account in one section under its mutex (`…_prepare`), and later, under `persistMu`, writes or
-- removes the credential file and commits in a second section (`…_store`). The digest of
-- `identity` (hex of crypto/sha256) is a parameter.
mod Controls
mod Races
mod Examples
use cpa_github_copilot.Common.{
  ℕ, suc, ◌+◌, ◌*◌, ◌≡◌, Bool, true, false, not, ◌&&◌, ◌||◌, Option, none, some, List, [], ◌∷◌,
  ◌++◌, ltb, nat_eq, max, if◌then◌else◌, is_some, Bytes, Bytes_eq, Eq, ◌==◌, codes, Map, lookup,
  insert, ltb_ℤ, pos, ℤ, pos_part,
}
use cpa_github_copilot.Common.Json.{Json, string, boolean, number, fraction}
use cpa_github_copilot.App.Account.{Account, AuthData}
use cpa_github_copilot.App.Quota.{is_current, minute}

pub data Failure : Type 0 where
  account_removed invalid_credential_update identity_changed write_failed changed_meanwhile :
      Failure

pub data Result {ℓ} (A : Type ℓ) : Type ℓ where
  ok : A → Result A
  err : Failure → Result A

-- An account and its credential file.
pub record Stored : Type 0 where
  pub account : Account
  pub file : Option (Map Bytes Json)

-- `raw[key].(string)`, "" where it is missing or no string.
pub string_field : Bytes → Map Bytes Json → Bytes
string_field key raw = elim (lookup key raw) [
  | none ↦ []
  | some v ↦ elim v [ string s ↦ s | _ ↦ [] ]
]

abbrev pub key_disabled : Bytes
key_disabled = codes "disabled"

abbrev pub key_priority : Bytes
key_priority = codes "priority"

abbrev pub key_proxy_url : Bytes
key_proxy_url = codes "proxy_url"

abbrev pub key_migration : Bytes
key_migration = codes "budget_guard_migration"

-- The keys of a credential that are the user's.
abbrev pub user_keys : List Bytes
user_keys = key_priority ∷ key_disabled ∷ key_proxy_url ∷ key_migration ∷ []

-- `raw[key] = value` for the keys that the old credential has.
pub keep_controls : List Bytes → Map Bytes Json → Map Bytes Json → Map Bytes Json
keep_controls [] old raw = raw
keep_controls (key ∷ keys) old raw =
    keep_controls keys old (elim (lookup key old) [ none ↦ raw | some v ↦ insert key v raw ])

pub record Update : Type 0 where
  pub epoch : ℕ
  pub disabled : Bool
  pub priority : ℤ
  pub raw : Map Bytes Json

-- `nextRaw` after `disabled`, and after `priority`.
abbrev pub with_disabled : Option Bool → Map Bytes Json → Map Bytes Json
with_disabled none raw = raw
with_disabled (some d) raw = insert key_disabled (boolean d) raw

abbrev pub with_priority : Option ℤ → Map Bytes Json → Map Bytes Json
with_priority none raw = raw
with_priority (some n) raw = insert key_priority (number n) raw

pub update_prepare : Account → Option Bool → Option ℤ → Result Update
update_prepare a disabled priority =
    if a.deleted
    then err account_removed
    else ok (record {
      epoch = a.epoch;
      disabled = elim disabled [ none ↦ a.disabled | some d ↦ d ];
      priority = elim priority [ none ↦ a.priority | some n ↦ n ];
      raw = with_priority priority (with_disabled disabled a.raw);
    })

-- `written`: the atomic write of the file succeeded.
pub update_store : Stored → Update → Bool → Stored × Option Failure
unfolding is_current
update_store st u written =
    if not written
    then (st, some write_failed)
    else if is_current st.account u.epoch
    then (
      record {
        account = record (st.account) { disabled = u.disabled; priority = u.priority; raw = u.raw };
        file = some u.raw;
      },
      none,
    )
    else (record st { file = some u.raw }, some changed_meanwhile)

pub record Persist : Type 0 where
  pub epoch : ℕ
  pub raw : Map Bytes Json
  pub file_name : Bytes
  pub disabled : Bool

-- The models are next due a model TTL (at least a minute) after `models_fetched_at` (milliseconds).
pub models_due : ℕ → Map Bytes Json → ℕ → ℕ
models_due ttl raw old = elim (lookup (codes "models_fetched_at") raw) [
  | none ↦ old
  | some v ↦ elim v [
    | number n ↦ if ltb_ℤ (pos 0) n then pos_part n * 1_000_000 + max minute ttl else old
    | fraction is_negative whole ↦ if is_negative then old else whole * 1_000_000 + max minute ttl
    | _ ↦ old
  ]
]

module _ (digest : Bytes → Bytes) where
  -- `identity`.
  pub identity : Map Bytes Json → Bytes
  unfolding string_field
  identity raw =
      let token = string_field (codes "github_access_token") raw in
      digest (
        string_field (codes "github_host") raw
        ++ (0 ∷ (if token == [] then string_field (codes "refresh") raw else token)))

  pub persist_prepare : Account → AuthData → Result Persist
  unfolding identity keep_controls
  persist_prepare a next = if a.deleted then err account_removed else elim next.storage [
    | none ↦ err invalid_credential_update
    | some raw ↦
        if identity raw == a.identity
        then ok (record {
          epoch = a.epoch;
          raw = keep_controls user_keys a.raw raw;
          file_name = a.auth.file_name;
          disabled = a.disabled;
        })
        else err identity_changed
  ]

pub persist_store : ℕ → Stored → AuthData → Persist → Bool → Stored × Option Failure
unfolding is_current models_due
persist_store ttl st next p written =
    if not written
    then (st, some write_failed)
    else if is_current st.account p.epoch
    then (
      record {
        account = record (st.account) {
          auth = record next { id = st.account.id; file_name = p.file_name; disabled = p.disabled };
          raw = p.raw;
          next_models = models_due ttl p.raw st.account.next_models;
        };
        file = some p.raw;
      },
      none,
    )
    else (record st { file = some p.raw }, some changed_meanwhile)

pub delete_prepare : Account → Result ℕ
delete_prepare a = if a.deleted then err account_removed else ok a.epoch

-- `removed`: the file was removed; `listed`: `s.accounts[id]` is still this account.
pub delete_store : Stored → ℕ → Bool → Bool → Stored × Option Failure
unfolding is_current
delete_store st epoch removed listed =
    if not removed
    then (st, some write_failed)
    else if listed && is_current st.account epoch
    then (
      record {
        account = record (st.account) { deleted = true; epoch = suc st.account.epoch };
        file = none;
      },
      none,
    )
    else (record st { file = none }, some changed_meanwhile)

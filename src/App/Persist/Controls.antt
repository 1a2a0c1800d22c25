-- ===== src/App/Persist/Controls.antt =====
-- internal/app/accounts.go: what a stored update leaves in the credential, if nothing interferes.
use cpa_github_copilot.Common.{
  ℕ, ◌≡◌, refl, ◌∙◌, inl, inr, Bool, true, false, Option, none, some, List, [], ◌∷◌, arith,
  if◌then◌else◌, any, Option-cases, Bytes, Bytes_eq, bytes_eq, bytes_eq_iff, ◌==◌, codes, Map,
  lookup, insert, lookup-insert, ℤ,
}
use mathlib.Core.Option.{get_or}
use cpa_github_copilot.Common.Json.{Json, boolean, number}
use cpa_github_copilot.App.Account.{Account, AuthData}
use cpa_github_copilot.App.Quota.{is_current}
use cpa_github_copilot.App.Persist.{
  Stored, ok, string_field, user_keys, key_disabled, key_priority, keep_controls, Update,
  with_priority, with_disabled, update_prepare, update_store, Persist, identity, persist_prepare,
  persist_store,
}

-- The old credential's value of a key, or else the new one's.
abbrev pub preferred : Option Json → Option Json → Option Json
preferred (some v) new = some v
preferred none new = new

pub lookup-keep_controls :
    (keys : List Bytes) (old raw : Map Bytes Json) (key : Bytes)
    → lookup key (keep_controls keys old raw) ≡ (
        if any (λ k. k == key) keys
        then preferred (lookup key old) (lookup key raw)
        else lookup key raw)
unfolding keep_controls
lookup-keep_controls [] old raw key = refl
lookup-keep_controls (k ∷ keys) old raw key = elim (Option-cases (lookup k old)) [
  | inl e ↦
      rw (e, keep_controls)
        (ground (arith, lookup-keep_controls keys old raw key, bytes_eq_iff k key))
  | inr (v, e) ↦
      rw (e, keep_controls)
        (ground (
          arith,
          lookup-keep_controls keys old (insert k v raw) key,
          lookup-insert k key v raw,
          bytes_eq_iff k key,
        ))
]

-- A key that is no user's is the new credential's.
string_field-keep_controls :
    (old raw : Map Bytes Json) (key : Bytes)
    → any (λ k. k == key) user_keys ≡ false
    → string_field key (keep_controls user_keys old raw) ≡ string_field key raw
unfolding string_field
string_field-keep_controls old raw key h =
    let same : lookup key (keep_controls user_keys old raw) ≡ lookup key raw =
      ground (arith, lookup-keep_controls user_keys old raw key) in
    rw (same, string_field) refl

pub is_current_self : (a : Account) → a.deleted ≡ false → is_current a a.epoch ≡ true
unfolding is_current
is_current_self a alive = ground arith

-- What `persist_prepare` reads of an account.
abbrev pub prepared : Account → Map Bytes Json → Persist
prepared a raw = record {
  epoch = a.epoch;
  raw = keep_controls user_keys a.raw raw;
  file_name = a.auth.file_name;
  disabled = a.disabled;
}

module _ (digest : Bytes → Bytes) where
  pub identity-keep_controls :
      (old raw : Map Bytes Json)
      → identity digest (keep_controls user_keys old raw) ≡ identity digest raw
  unfolding identity bytes_eq
  identity-keep_controls old raw =
      rw
        (
          string_field-keep_controls old raw (codes "github_access_token") refl,
          string_field-keep_controls old raw (codes "refresh") refl,
          string_field-keep_controls old raw (codes "github_host") refl,
        )
        refl

  pub persist_prepare_ok :
      (a : Account) (next : AuthData) (raw : Map Bytes Json)
      → next.storage ≡ some raw
      → a.deleted ≡ false
      → identity digest raw ≡ a.identity
      → persist_prepare digest a next ≡ ok (prepared a raw)
  unfolding persist_prepare
  persist_prepare_ok a next raw stored alive same =
      rw (alive, stored, (bytes_eq_iff (identity digest raw) a.identity).1 same, persist_prepare)

  -- A credential update by the provider, with nothing in between: it is stored, in the account and
  -- in the file alike; the user's keys ("priority", "disabled", "proxy_url" and
  -- "budget_guard_migration") keep the account's values, every other key takes the provider's; the
  -- credential's identity, the account's id, file name, switch, priority, epoch and guard stay.
  pub persist_keeps_controls :
      (ttl : ℕ) (st : Stored) (next : AuthData) (raw : Map Bytes Json) (key : Bytes)
      → next.storage ≡ some raw
      → st.account.deleted ≡ false
      → identity digest raw ≡ st.account.identity
      → let p = prepared st.account raw in
        let st' = (persist_store ttl st next p true).0 in
        (persist_prepare digest st.account next ≡ ok p)
        × ((persist_store ttl st next p true).1 ≡ none)
        × (st'.file ≡ some st'.account.raw)
        × (lookup key st'.account.raw ≡ (
            if any (λ k. k == key) user_keys
            then preferred (lookup key st.account.raw) (lookup key raw)
            else lookup key raw))
        × (identity digest st'.account.raw ≡ st.account.identity)
        × (st'.account.auth.id ≡ st.account.id)
        × (st'.account.auth.file_name ≡ st.account.auth.file_name)
        × (st'.account.disabled ≡ st.account.disabled)
        × (st'.account.priority ≡ st.account.priority)
        × (st'.account.epoch ≡ st.account.epoch)
        × (st'.account.guard ≡ st.account.guard)
  unfolding persist_store
  persist_keeps_controls ttl st next raw key stored alive same =
      let current = is_current_self st.account alive in
      rw (current, persist_store)
        (
          persist_prepare_ok st.account next raw stored alive same,
          refl,
          refl,
          lookup-keep_controls user_keys st.account.raw raw key,
          identity-keep_controls st.account.raw raw ∙ same,
          refl,
          refl,
          refl,
          refl,
          refl,
          refl,
        )

-- The value of a key of the credential after an update, from the value before.
abbrev pub updated_switch : Option Bool → Bytes → Option Json → Option Json
updated_switch none key old = old
updated_switch (some d) key old = if key_disabled == key then some (boolean d) else old

abbrev pub updated : Option Bool → Option ℤ → Bytes → Option Json → Option Json
updated disabled none key old = updated_switch disabled key old
updated disabled (some n) key old =
    if key_priority == key then some (number n) else updated_switch disabled key old

lookup-update :
    (disabled : Option Bool) (priority : Option ℤ) (key : Bytes) (raw : Map Bytes Json)
    → lookup key (with_priority priority (with_disabled disabled raw))
      ≡ updated disabled priority key (lookup key raw)
lookup-update none none key raw = refl
lookup-update (some d) none key raw = lookup-insert key_disabled key (boolean d) raw
lookup-update none (some n) key raw = lookup-insert key_priority key (number n) raw
lookup-update (some d) (some n) key raw =
    rw
      (
        lookup-insert key_priority key (number n) (insert key_disabled (boolean d) raw),
        lookup-insert key_disabled key (boolean d) raw,
      )
      refl

-- What `update_prepare` reads of an account.
abbrev pub given : Account → Option Bool → Option ℤ → Update
given a disabled priority = record {
  epoch = a.epoch;
  disabled = get_or disabled a.disabled;
  priority = get_or priority a.priority;
  raw = with_priority priority (with_disabled disabled a.raw);
}

-- An update by the user, with nothing in between: it is stored, in the account and in the file
-- alike; the switch and the priority are the given ones, in the account and, under "disabled" and
-- "priority", in the credential; what is not given, every other key, the epoch and the budget guard
-- stay as they were.
pub update_applies :
    (st : Stored) (disabled : Option Bool) (priority : Option ℤ) (key : Bytes)
    → st.account.deleted ≡ false
    → let u = given st.account disabled priority in
      let st' = (update_store st u true).0 in
      (update_prepare st.account disabled priority ≡ ok u)
      × ((update_store st u true).1 ≡ none)
      × (st'.file ≡ some st'.account.raw)
      × (st'.account.disabled ≡ get_or disabled st.account.disabled)
      × (st'.account.priority ≡ get_or priority st.account.priority)
      × (lookup key st'.account.raw ≡ updated disabled priority key (lookup key st.account.raw))
      × (st'.account.epoch ≡ st.account.epoch)
      × (st'.account.guard ≡ st.account.guard)
unfolding update_prepare update_store
update_applies st disabled priority key alive =
    let current = is_current_self st.account alive in
    rw (current, update_store)
      (
        rw alive (ground arith),
        refl,
        refl,
        refl,
        refl,
        lookup-update disabled priority key st.account.raw,
        refl,
        refl,
      )

-- ===== src/App/Persist/Races.antt =====
-- internal/app/accounts.go: what happens where two of these operations overlap.
use cpa_github_copilot.Common.{
  ℕ, ◌≡◌, refl, ◌∙◌, sym, Bool, true, false, none, some, arith, Bytes, Bytes_eq, bytes_eq, Map,
  lookup, insert, lookup-insert,
}
use cpa_github_copilot.Common.Json.{Json, boolean}
use cpa_github_copilot.App.Account.{Account, AuthData}
use cpa_github_copilot.App.Quota.{is_current}
use cpa_github_copilot.App.Persist.{
  Stored, changed_meanwhile, ok, user_keys, key_disabled, keep_controls, Update, update_prepare,
  update_store, Persist, identity, persist_prepare, persist_store, delete_store, models_due,
}
use cpa_github_copilot.App.Persist.Controls.{
  lookup-keep_controls, persist_prepare_ok, prepared, is_current_self,
}

-- An update, a provider's update and a deletion that come too late (the account was deleted, or
-- replaced by another epoch, after they read it) fail, and leave the account as it is.
outdated_stores_fail :
    (ttl : ℕ) (st : Stored) (u : Update) (next : AuthData) (p : Persist) (epoch : ℕ) (listed : Bool)
    → is_current st.account u.epoch ≡ false
    → is_current st.account p.epoch ≡ false
    → is_current st.account epoch ≡ false
    → ((update_store st u true).1 ≡ some changed_meanwhile)
      × ((update_store st u true).0.account ≡ st.account)
      × ((persist_store ttl st next p true).1 ≡ some changed_meanwhile)
      × ((persist_store ttl st next p true).0.account ≡ st.account)
      × ((delete_store st epoch true listed).1 ≡ some changed_meanwhile)
      × ((delete_store st epoch true listed).0.account ≡ st.account)
unfolding update_store persist_store delete_store
outdated_stores_fail ttl st u next p epoch listed h k l = ground (arith, h, k, l)

ok-injective {ℓ} : {A : Type ℓ} (a b : A) → ok a ≡ ok b → a ≡ b
ok-injective a b e = cc

abbrev switched_update : Account → Bool → Update
switched_update a d = record {
  epoch = a.epoch;
  disabled = d;
  priority = a.priority;
  raw = insert key_disabled (boolean d) a.raw;
}

-- A user's switch is lost where it overlaps a provider's update: an account is not changed in its
-- epoch by an update. So if a provider's update has read the account, and then the user's switch
-- is stored, successfully, before the provider's update is, then that succeeds too; the account in
-- memory has the new switch, but its credential, and the file from which the account is read at the
-- next start, have the old one again.
pub switch_lost :
    (digest : Bytes → Bytes) (ttl : ℕ) (st : Stored) (next : AuthData) (raw : Map Bytes Json)
    (old : Json) (d : Bool) (p : Persist) (u : Update)
    → next.storage ≡ some raw
    → st.account.deleted ≡ false
    → identity digest raw ≡ st.account.identity
    → lookup key_disabled st.account.raw ≡ some old
    → persist_prepare digest st.account next ≡ ok p
    → update_prepare st.account (some d) none ≡ ok u
    → let switched = update_store st u true in
      let persisted = persist_store ttl switched.0 next p true in
      (switched.1 ≡ none)
      × (lookup key_disabled switched.0.account.raw ≡ some (boolean d))
      × (persisted.1 ≡ none)
      × (persisted.0.account.disabled ≡ d)
      × (lookup key_disabled persisted.0.account.raw ≡ some old)
      × (persisted.0.file ≡ some persisted.0.account.raw)
unfolding update_prepare update_store persist_store bytes_eq
switch_lost digest ttl st next raw old d p u stored alive same had prepare update =
    let read : prepared st.account raw ≡ p =
      ok-injective _ _
        (sym (persist_prepare_ok digest st.account next raw stored alive same) ∙ prepare) in
    let given : switched_update st.account d ≡ u = ground arith in
    let a = st.account in
    let u' = switched_update a d in
    let p' = prepared a raw in
    let mid : Stored = record {
      account = record a { disabled = d; priority = a.priority; raw = u'.raw };
      file = some u'.raw;
    } in
    let after : Stored = record {
      account = record (mid.account) {
        auth = record next { id = a.id; file_name = p'.file_name; disabled = p'.disabled };
        raw = p'.raw;
        next_models = models_due ttl p'.raw a.next_models;
      };
      file = some p'.raw;
    } in
    let first : update_store st u' true ≡ (mid, none) =
      rw (is_current_self a alive, update_store) refl in
    let second : persist_store ttl mid next p' true ≡ (after, none) =
      rw (is_current_self mid.account alive, persist_store) refl in
    let kept : lookup key_disabled (keep_controls user_keys a.raw raw) ≡ some old =
      lookup-keep_controls user_keys a.raw raw key_disabled ∙ rw had refl in
    let shown : lookup key_disabled u'.raw ≡ some (boolean d) =
      lookup-insert key_disabled key_disabled (boolean d) a.raw in
    rw (← read, ← given) (rw (first, second) (refl, shown, refl, refl, kept, refl))

-- ===== src/App/Persist/Examples.antt =====
-- Runs of the credential updates, and their theorems at concrete inputs.
use cpa_github_copilot.Common.{
  ◌≡◌, refl, true, false, none, some, [], ◌∷◌, pos, Bytes, codes, Map, lookup, insert, bytes_eq,
  Bytes_eq,
}
use cpa_github_copilot.Common.Json.{Json, string, boolean}
use cpa_github_copilot.App.Account.{Account, AuthData}
use cpa_github_copilot.App.Account.Sample.{named_account}
use cpa_github_copilot.App.Persist.{
  Stored, key_disabled, key_priority, identity, update_prepare, update_store, persist_prepare,
  persist_store,
}
use cpa_github_copilot.App.Persist.Controls.{
  prepared, given, persist_keeps_controls, update_applies,
}
use cpa_github_copilot.App.Persist.Races.{switch_lost}

-- In place of the digest.
abbrev same_bytes : Bytes → Bytes
same_bytes b = b

abbrev token : Bytes → Map Bytes Json
token t = (codes "github_access_token", string (codes "gho")) ∷ (codes "session", string t) ∷ []

abbrev account : Account
account = record (named_account (codes "a.json") (pos 0) 0) {
  identity = 0 ∷ codes "gho";
  raw = (key_disabled, boolean false) ∷ token (codes "t1");
}

abbrev stored : Stored
stored = record { account = account; file = some account.raw }

abbrev renewed : AuthData
renewed = record {
  id = codes "x";
  file_name = codes "x";
  disabled = false;
  storage = some (token (codes "t2"));
  next_refresh_after = 9;
}

persist_keeps_controls_example :
    (persist_store 0 stored renewed (prepared account (token (codes "t2"))) true).1 ≡ none
unfolding identity lookup bytes_eq
persist_keeps_controls_example =
    (persist_keeps_controls same_bytes 0 stored renewed (token (codes "t2")) key_disabled refl refl
      refl).1

update_applies_example :
    (update_store stored (given account (some true) (some (pos 7))) true).0.account.priority ≡ pos 7
update_applies_example = (update_applies stored (some true) (some (pos 7)) key_priority refl).4

switch_lost_example :
    (persist_store 0
      (update_store stored
        (record {
          epoch = 1;
          disabled = true;
          priority = pos 0;
          raw = insert key_disabled (boolean true) account.raw;
        })
        true).0
      renewed
      (prepared account (token (codes "t2")))
      true).0.account.disabled
    ≡ true
unfolding identity lookup bytes_eq update_prepare persist_prepare
switch_lost_example =
    (switch_lost same_bytes 0 stored renewed (token (codes "t2")) (boolean false) true
      (prepared account (token (codes "t2")))
      (record {
        epoch = 1;
        disabled = true;
        priority = pos 0;
        raw = insert key_disabled (boolean true) account.raw;
      })
      refl refl refl refl refl refl).3

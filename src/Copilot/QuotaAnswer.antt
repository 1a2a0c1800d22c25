-- ===== src/Copilot/QuotaAnswer.antt =====
-- internal/copilot/quota.go: from the service's answer about the quota to the admission that
-- checkQuota observes. What of the answer is only shown (groups and summary) is a parameter.
mod Budget
mod Examples
use cpa_github_copilot.Common.{
  ℕ, ◌+◌, ◌-◌, ◌*◌, ◌/◌, min, Bool, true, false, not, ◌&&◌, ◌||◌, Option, none, some, List, [], ◌∷◌,
  if◌then◌else◌, ltb, leb, nat_eq, Bytes, Bytes_eq, Eq, ◌==◌, codes, ℤ, pos, negsuc, ltb_ℤ,
  pos_part, Map, lookup,
}
use cpa_github_copilot.Common.Json.{Json, boolean, object, string, Fields, end}
use cpa_github_copilot.App.Account.{Quota, QuotaAdmission}
use cpa_github_copilot.App.Quota.{TimeParser, second, state_block, state_allow}
use cpa_github_copilot.Copilot.Terminal.{get, fields_of, string_value}

-- A `big.Rat` that is not negative: `numerator / (denominator_pred + 1)`.
pub record Rat : Type 0 where
  pub numerator : ℕ
  pub denominator_pred : ℕ

abbrev pub denominator : Rat → ℕ
denominator r = r.denominator_pred + 1

-- `quotaObject.number`, the parsers and formats of time, strconv.Atoi, http.ParseTime, and what is
-- shown of an answer.
pub record QuotaReader : Type 0 where
  pub number : Fields → Bytes → Option Rat
  pub times : TimeParser
  pub format_rfc3339 : ℕ → Bytes
  pub atoi : Bytes → Option ℤ
  pub parse_http_time : Bytes → Option ℕ
  pub report : Fields → Bytes

-- `quotaObject.boolean`, of which the second result is not read here.
pub boolean_of : Bytes → Fields → Bool
boolean_of key o = elim (get key o) [ boolean b ↦ b | _ ↦ false ]

abbrev pub plan_names : Map Bytes Bytes
plan_names =
    (codes "individual_edu", codes "Copilot Student")
    ∷ (codes "individual", codes "Copilot Pro")
    ∷ (codes "individual_pro", codes "Copilot Pro+")
    ∷ (codes "individual_max", codes "Copilot Max")
    ∷ (codes "business", codes "Copilot Business")
    ∷ (codes "enterprise", codes "Copilot Enterprise")
    ∷ []

unfoldable pub quota_plan : Fields → Bytes
unfolding boolean_of
quota_plan account =
    let sku = string_value (get (codes "access_type_sku") account) in
    let plan : Bytes =
      elim (lookup (string_value (get (codes "copilot_plan") account)) plan_names) [
        | none ↦ []
        | some name ↦ name
      ] in
    if sku == codes "free_limited_copilot"
    then codes "Copilot Free"
    else if sku == codes "free_educational_quota"
    then codes "Copilot Student"
    else if boolean_of (codes "can_signup_for_limited") account
    then []
    else plan

-- `used.Cmp(big.NewRat(99, 100)) > 0` for the quotient of the two.
unfoldable pub exceeds_budget : Rat → Rat → Bool
exceeds_budget count total =
    ltb (99 * (denominator count * total.numerator)) (100 * (count.numerator * denominator total))

abbrev pub state_unknown : Bytes
state_unknown = codes "unknown"

-- The state of the admission.
unfoldable pub admission_state : Option Rat → Option Rat → Bytes
unfolding exceeds_budget
admission_state none total = state_unknown
admission_state (some count) none = state_unknown
admission_state (some count) (some total) =
    if ltb 0 total.numerator
    then (if exceeds_budget count total then state_block else state_allow)
    else (if nat_eq count.numerator 0 then state_allow else state_unknown)

module _ (reader : QuotaReader) where
  -- The loop over the keys with a date.
  pub reset_date : Fields → List Bytes → Bytes
  reset_date account [] = []
  reset_date account (key ∷ keys) =
      let value = string_value (get key account) in
      let rest = reset_date account keys in
      elim (reader.times.rfc3339 value) [
        | some t ↦ reader.format_rfc3339 t
        | none ↦ elim (reader.times.date value) [ some t ↦ value | none ↦ rest ]
      ]

  unfoldable pub quota_reset : Fields → Fields → Bytes
  unfolding reset_date
  quota_reset snapshot account =
      let dated = reset_date account (
        codes "quota_reset_date_utc"
        ∷ codes "quota_reset_date"
        ∷ codes "limited_user_reset_date"
        ∷ []) in
      elim (reader.number snapshot (codes "quota_reset_at")) [
        | none ↦ dated
        | some r ↦
            if ltb 0 r.numerator && ltb r.numerator (253402300800 * denominator r)
            then reader.format_rfc3339 (r.numerator / denominator r * second)
            else dated
      ]

  abbrev pub premium_of : Fields → Fields
  premium_of account =
      fields_of
        (get (codes "premium_interactions") (fields_of (get (codes "quota_snapshots") account)))

  -- `parseQuota`.
  unfoldable pub parse_quota : Fields → Quota
  unfolding quota_reset admission_state
  parse_quota account =
      let premium = premium_of account in
      record {
        stale = false;
        admission = some (record {
          state =
              admission_state (reader.number premium (codes "overage_count"))
                (reader.number premium (codes "overage_entitlement"));
          reset_time = quota_reset premium account;
        });
        retry_after_seconds = 0;
        observed_at = 0;
        report = reader.report account;
      }

  unfoldable pub quota_retry_after : Bytes → ℕ → ℕ
  quota_retry_after value now =
      let dated : ℕ = elim (reader.parse_http_time value) [
        | none ↦ 60
        | some date ↦ if ltb now date then min 86400 ((date - now + (second - 1)) / second) else 60
      ] in
      elim (reader.atoi value) [
        | none ↦ dated
        | some n ↦ if ltb_ℤ (pos 0) n then min (pos_part n) 86400 else dated
      ]

  -- `fetchQuotaRequest` behind the HTTP request, from the status, the Retry-After header and the
  -- decoded body of the answer; `none` is an error.
  unfoldable pub read_quota_answer : ℕ → ℕ → Bytes → Option Fields → Option Quota
  unfolding parse_quota quota_retry_after
  read_quota_answer now status retry_after body =
      let limited : Quota = record {
        stale = true;
        admission = some (record { state = state_unknown; reset_time = [] });
        retry_after_seconds = quota_retry_after retry_after now;
        observed_at = 0;
        report = [];
      } in
      if nat_eq status 429 || (nat_eq status 403 && not (retry_after == []))
      then some limited
      else if ltb status 200 || leb 300 status
      then none
      else elim body [ none ↦ none | some account ↦ some (parse_quota account) ]

-- ===== src/Copilot/Endpoints.antt =====
-- internal/copilot/endpoints.go: the hosts of GitHub and of the Copilot API. `url_parse` stands for
-- `url.Parse` (`none` is its error) and `is_ip` for `net.ParseIP(…) != nil`.
mod Trusted
mod Examples
use cpa_github_copilot.Common.{
  ℕ, ◌-◌, Bool, true, false, not, ◌&&◌, ◌||◌, Option, none, some, List, [], ◌∷◌, ◌++◌,
  if◌then◌else◌, ltb, leb, nat_eq, length, drop, any, Bytes, Bytes_eq, Eq, ◌==◌, codes, trim_space,
  to_lower, is_digit, has_byte, cut_prefix, split,
}
use cpa_github_copilot.Copilot.Forward.Failures.{contains_text}

abbrev pub https_prefix : Bytes
https_prefix = codes "https://"

abbrev pub default_github_host : Bytes
default_github_host = codes "github.com"

abbrev pub copilot_host : Bytes
copilot_host = codes "githubcopilot.com"

-- The bytes of `[a-z0-9]`.
unfoldable pub is_alnum : ℕ → Bool
unfolding is_digit
is_alnum c = is_digit c || (leb 97 c && leb c 122)

-- What follows the first byte: any of `[a-z0-9-]`, and the last one of `[a-z0-9]`.
unfoldable pub label_tail : Bytes → Bool
unfolding is_alnum
label_tail [] = true
label_tail (c ∷ []) = is_alnum c
label_tail (c ∷ d ∷ s) = (is_alnum c || nat_eq c 45) && label_tail (d ∷ s)

-- `hostnameLabel`.
unfoldable pub is_hostname_label : Bytes → Bool
unfolding label_tail
is_hostname_label [] = false
is_hostname_label (c ∷ s) = is_alnum c && label_tail s && leb (length (c ∷ s)) 63

pub all_labels : List Bytes → Bool
unfolding is_hostname_label
all_labels [] = true
all_labels (label ∷ labels) = is_hostname_label label && all_labels labels

-- `validateHostname(host) == nil`.
unfoldable pub validate_hostname : Bytes → Bool
unfolding all_labels
validate_hostname host =
    not (host == [])
    && leb (length host) 253
    && not (any (λ c. has_byte c host) (0 ∷ 13 ∷ 10 ∷ 9 ∷ 32 ∷ []))
    && all_labels (split 46 host)

-- `strings.TrimSuffix(s, ".")`.
unfoldable pub trim_dot : Bytes → Bytes
trim_dot [] = []
trim_dot (c ∷ []) = if nat_eq c 46 then [] else c ∷ []
trim_dot (c ∷ d ∷ s) = c ∷ trim_dot (d ∷ s)

-- `strings.HasSuffix`.
unfoldable pub has_suffix : Bytes → Bytes → Bool
has_suffix suffix s = leb (length suffix) (length s) && drop (length s - length suffix) s == suffix

unfoldable pub trusted_copilot_host : Bytes → Bytes → Bool
unfolding trim_dot has_suffix
trusted_copilot_host raw_host raw_github =
    let host = to_lower (trim_dot raw_host) in
    let github_host = to_lower (trim_dot raw_github) in
    host == copilot_host
    || has_suffix (46 ∷ copilot_host) host
    || host == github_host
    || has_suffix (46 ∷ github_host) host

-- `strings.Cut` by one byte.
unfoldable pub cut : ℕ → Bytes → Option (Bytes × Bytes)
cut sep [] = none
cut sep (c ∷ s) =
    let rest = cut sep s in
    if nat_eq c sep
    then some ([], s)
    else elim rest [ none ↦ none | some (before, after) ↦ some (c ∷ before, after) ]

-- The parts of `url.URL` that are read.
pub record Url : Type 0 where
  pub scheme : Bytes
  pub hostname : Bytes
  pub has_user : Bool
  pub port : Bytes
  pub path : Bytes
  pub raw_query : Bytes
  pub fragment : Bytes

-- The fields of `providerEndpoints`.
pub record ProviderEndpoints : Type 0 where
  pub entitlement_url : Bytes
  pub github_host : Bytes
  pub device_code_url : Bytes
  pub access_token_url : Bytes
  pub copilot_token_url : Bytes
  pub fallback_api_url : Bytes
  pub github_user_url : Bytes

-- `endpointsForHost` behind the normalization.
unfoldable pub endpoints_of : Bytes → ProviderEndpoints
endpoints_of h =
    let is_default = h == default_github_host in
    record {
      entitlement_url = codes "https://api." ++ (h ++ codes "/copilot_internal/user");
      github_host = h;
      device_code_url = https_prefix ++ (h ++ codes "/login/device/code");
      access_token_url = https_prefix ++ (h ++ codes "/login/oauth/access_token");
      copilot_token_url =
          if is_default
          then codes "https://api.github.com/copilot_internal/v2/token"
          else codes "https://api." ++ (h ++ codes "/copilot_internal/v2/token");
      fallback_api_url =
          if is_default
          then codes "https://api.individual.githubcopilot.com"
          else codes "https://copilot-api." ++ h;
      github_user_url =
          if is_default
          then codes "https://api.github.com/user"
          else https_prefix ++ (h ++ codes "/api/v3/user");
    }

-- The host that the API is called at: "proxy." becomes "api.".
pub api_host : Bytes → Bytes
api_host host = elim (cut_prefix (codes "proxy.") host) [
  | none ↦ host
  | some rest ↦ codes "api." ++ rest
]

module _ (url_parse : Bytes → Option Url) (is_ip : Bytes → Bool) where
  unfoldable pub normalize_github_host : Bytes → Option Bytes
  unfolding validate_hostname
  normalize_github_host raw =
      let trimmed = trim_space raw in
      let given = if trimmed == [] then default_github_host else trimmed in
      let candidate =
        if not (contains_text given (codes "://")) then https_prefix ++ given else given in
      elim (url_parse candidate) [
        | none ↦ none
        | some u ↦
            let host = to_lower (trim_dot u.hostname) in
            if not (u.scheme == codes "https") || u.hostname == []
            then none
            else if u.has_user
                || not (u.port == [])
                || (not (u.path == []) && not (u.path == codes "/"))
                || not (u.raw_query == [])
                || not (u.fragment == [])
            then none
            else if not (validate_hostname host)
            then none
            else if is_ip host || host == codes "localhost" || not (has_byte 46 host)
            then none
            else some host
      ]

  -- The loop over the fields of a session token: the host that it names, if it may be used.
  pub proxy_host : Bytes → List Bytes → Option Bytes
  unfolding validate_hostname trusted_copilot_host cut
  proxy_host github_host [] = none
  proxy_host github_host (field ∷ fields) =
      let rest = proxy_host github_host fields in
      elim (cut 61 (trim_space field)) [
        | none ↦ rest
        | some (key, value) ↦
            let host = to_lower (trim_dot (trim_space value)) in
            if not (key == codes "proxy-ep")
            then rest
            else if not (validate_hostname host)
                || is_ip host
                || not (trusted_copilot_host host github_host)
            then none
            else some host
      ]

  -- `apiBaseFromSessionToken`: empty where the GitHub host is none.
  unfoldable pub api_base_from_session_token : Bytes → Bytes → Bytes
  unfolding normalize_github_host endpoints_of proxy_host api_host
  api_base_from_session_token token github_host = elim (normalize_github_host github_host) [
    | none ↦ []
    | some normalized ↦ elim (proxy_host normalized (split 59 token)) [
      | none ↦ (endpoints_of normalized).fallback_api_url
      | some host ↦ https_prefix ++ api_host host
    ]
  ]

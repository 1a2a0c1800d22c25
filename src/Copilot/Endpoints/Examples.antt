-- ===== src/Copilot/Endpoints/Examples.antt =====
-- Session tokens and the hosts that they lead to.
use cpa_github_copilot.Common.{
  ℕ, ◌≡◌, refl, ◌⊎◌, Bool, true, false, not, Option, none, some, ◌++◌, List, [], ◌∷◌, Bytes, codes,
  to_lower, trim_space, split, cut_prefix, bytes_eq,
}
use cpa_github_copilot.Copilot.Endpoints.{
  https_prefix, Url, endpoints_of, normalize_github_host, api_base_from_session_token,
  validate_hostname, trusted_copilot_host, cut,
}
use cpa_github_copilot.Copilot.Endpoints.Trusted.{MayReceive, api_base_from_session_token-trusted}

-- A parser that knows only hosts.
parse_host : Bytes → Option Url
parse_host s = elim (cut_prefix https_prefix s) [
  | none ↦ none
  | some host ↦ some (record {
    scheme = codes "https";
    hostname = host;
    has_user = false;
    port = [];
    path = [];
    raw_query = [];
    fragment = [];
  })
]

no_ip : Bytes → Bool
no_ip s = false

token : Bytes
token = codes "tid=1;proxy-ep=proxy.business.githubcopilot.com;exp=2"

forged : Bytes
forged = codes "tid=1;proxy-ep=githubcopilot.com.evil.example"

named_host :
    api_base_from_session_token parse_host no_ip token (codes "GitHub.com")
    ≡ codes "https://api.business.githubcopilot.com"
unfolding api_base_from_session_token parse_host no_ip token cut_prefix
    cpa_github_copilot.Copilot.Forward.Failures.contains_text
    cpa_github_copilot.Copilot.Framer.index_of bytes_eq trim_space
    cpa_github_copilot.Common.has_prefix to_lower cpa_github_copilot.Common.has_byte split
named_host = refl

forged_host :
    api_base_from_session_token parse_host no_ip forged []
    ≡ codes "https://api.individual.githubcopilot.com"
unfolding api_base_from_session_token parse_host no_ip forged cut_prefix
    cpa_github_copilot.Copilot.Forward.Failures.contains_text
    cpa_github_copilot.Copilot.Framer.index_of bytes_eq trim_space
    cpa_github_copilot.Common.has_prefix to_lower cpa_github_copilot.Common.has_byte split
forged_host = refl

api_base_from_session_token-trusted_example :
    (api_base_from_session_token parse_host no_ip token []
      ≡ (endpoints_of (codes "github.com")).fallback_api_url)
    ⊎ ((host : Bytes) × (api_base_from_session_token parse_host no_ip token []
          ≡ https_prefix ++ host)
        × MayReceive (codes "github.com") host)
unfolding normalize_github_host parse_host no_ip cut_prefix
    cpa_github_copilot.Copilot.Forward.Failures.contains_text
    cpa_github_copilot.Copilot.Framer.index_of bytes_eq trim_space
    cpa_github_copilot.Common.has_prefix to_lower cpa_github_copilot.Copilot.Endpoints.trim_dot
    cpa_github_copilot.Common.has_byte split
api_base_from_session_token-trusted_example =
    api_base_from_session_token-trusted parse_host no_ip token [] (codes "github.com") refl

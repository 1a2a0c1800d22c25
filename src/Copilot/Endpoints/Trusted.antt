-- ===== src/Copilot/Endpoints/Trusted.antt =====
-- internal/copilot/endpoints.go: where the session token is sent to.
use cpa_github_copilot.Common.{
  ℕ, ◌-◌, ◌≡◌, refl, sym, subst, ◌∙◌, ◌⊎◌, inl, inr, Bool, true, false, ◌||◌, Bool-cases, Option,
  some, Option-cases, List, [], ◌∷◌, ◌++◌, arith, nat_eq, length, take, drop, take-append-drop, All,
  All-append, Bytes, Bytes_eq, bytes_eq, ◌==◌, eq→path, codes, to_lower, lower_byte, is_digit,
  cut_prefix, split, join, join-split,
}
use cpa_github_copilot.Copilot.Endpoints.{
  https_prefix, copilot_host, is_alnum, label_tail, is_hostname_label, all_labels,
  validate_hostname, trim_dot, has_suffix, trusted_copilot_host, Url, endpoints_of, api_host,
  normalize_github_host, proxy_host, api_base_from_session_token,
}

-- A byte of a host name: nothing that ends the host part of a URL, such as "/", ":", "@", "?" or "#".
abbrev pub IsHostByte : ℕ → Type 0
IsHostByte c = (is_alnum c || nat_eq c 45 || nat_eq c 46) ≡ true

-- `host` is `domain` or one of its subdomains.
abbrev pub Under : Bytes → Bytes → Type 0
Under domain host = (host ≡ domain) ⊎ ((s : Bytes) × (host ≡ s ++ (46 ∷ domain)))

has_suffix-append :
    (suffix s : Bytes) → has_suffix suffix s ≡ true → (p : Bytes) × (s ≡ p ++ suffix)
unfolding has_suffix
has_suffix-append suffix s h =
    let n = length s - length suffix in
    let e : drop n s ≡ suffix = eq→path (drop n s) suffix (ground (arith, h)) in
    (take n s, subst (λ t. s ≡ take n s ++ t) e (sym (take-append-drop n s)))

label_tail-bytes : (s : Bytes) → label_tail s ≡ true → All IsHostByte s
unfolding label_tail
label_tail-bytes [] h = tt
label_tail-bytes (c ∷ []) h = (ground (arith, h), tt)
label_tail-bytes (c ∷ d ∷ s) h = (ground (arith, h), label_tail-bytes (d ∷ s) (ground (arith, h)))

hostname_label-bytes : (s : Bytes) → is_hostname_label s ≡ true → All IsHostByte s
unfolding is_hostname_label
hostname_label-bytes [] h = tt
hostname_label-bytes (c ∷ s) h = (ground (arith, h), label_tail-bytes s (ground (arith, h)))

join-bytes : (labels : List Bytes) → all_labels labels ≡ true → All IsHostByte (join 46 labels)
unfolding all_labels join
join-bytes [] h = tt
join-bytes (label ∷ []) h = hostname_label-bytes label (ground (arith, h))
join-bytes (label ∷ l ∷ labels) h =
    All-append IsHostByte label (46 ∷ join 46 (l ∷ labels))
      (hostname_label-bytes label (ground (arith, h)))
      (ground arith, join-bytes (l ∷ labels) (ground (arith, h)))

validate_hostname-bytes : (host : Bytes) → validate_hostname host ≡ true → All IsHostByte host
unfolding validate_hostname
validate_hostname-bytes host h =
    subst (All IsHostByte) (join-split 46 host) (join-bytes (split 46 host) (ground (arith, h)))

-- The host behind "proxy." or "api." is a part of one that is valid.
cut_prefix-rest : (p s rest : Bytes) → cut_prefix p s ≡ some rest → s ≡ p ++ rest
unfolding cut_prefix
cut_prefix-rest [] s rest h = ground (arith, h)
cut_prefix-rest (a ∷ p) [] rest h = absurd (ground (arith, h))
cut_prefix-rest (a ∷ p) (b ∷ s) rest h = ground (arith, h, cut_prefix-rest p s rest)

label_tail-trim_dot : (c : ℕ) (s : Bytes) → label_tail (c ∷ s) ≡ true → trim_dot (c ∷ s) ≡ c ∷ s
unfolding label_tail trim_dot is_alnum is_digit
label_tail-trim_dot c [] h = ground (arith, h)
label_tail-trim_dot c (d ∷ s) h = rw (label_tail-trim_dot d s (ground (arith, h))) refl

hostname_label-trim_dot : (s : Bytes) → is_hostname_label s ≡ true → trim_dot s ≡ s
unfolding is_hostname_label label_tail trim_dot
hostname_label-trim_dot [] h = refl
hostname_label-trim_dot (c ∷ []) h = label_tail-trim_dot c [] (ground (arith, h))
hostname_label-trim_dot (c ∷ d ∷ s) h = label_tail-trim_dot c (d ∷ s) (ground (arith, h))

trim_dot-append :
    (xs : Bytes) (y : ℕ) (ys : Bytes) → trim_dot (xs ++ (y ∷ ys)) ≡ xs ++ trim_dot (y ∷ ys)
unfolding trim_dot
trim_dot-append [] y ys = refl
trim_dot-append (x ∷ []) y ys = refl
trim_dot-append (x ∷ x' ∷ xs) y ys = rw (trim_dot-append (x' ∷ xs) y ys) refl

join-trim_dot :
    (labels : List Bytes) → all_labels labels ≡ true → trim_dot (join 46 labels) ≡ join 46 labels
unfolding all_labels join trim_dot is_hostname_label
join-trim_dot [] h = refl
join-trim_dot (label ∷ []) h = hostname_label-trim_dot label (ground (arith, h))
join-trim_dot (label ∷ [] ∷ labels) h = absurd (ground (arith, h))
join-trim_dot (label ∷ (c ∷ l) ∷ []) h =
    rw (trim_dot-append label 46 (c ∷ l), join-trim_dot ((c ∷ l) ∷ []) (ground (arith, h))) refl
join-trim_dot (label ∷ (c ∷ l) ∷ m ∷ labels) h =
    let rest = join 46 ((c ∷ l) ∷ m ∷ labels) in
    rw (trim_dot-append label 46 rest, join-trim_dot ((c ∷ l) ∷ m ∷ labels) (ground (arith, h)))
      refl

validate_hostname-trim_dot : (host : Bytes) → validate_hostname host ≡ true → trim_dot host ≡ host
unfolding validate_hostname
validate_hostname-trim_dot host h =
    subst (λ s. trim_dot s ≡ s) (join-split 46 host)
      (join-trim_dot (split 46 host) (ground (arith, h)))

to_lower-host : (s : Bytes) → All IsHostByte s → to_lower s ≡ s
unfolding to_lower is_alnum is_digit lower_byte
to_lower-host [] h = refl
to_lower-host (c ∷ s) h = ground (arith, h, to_lower-host s h.1)

-- A host that validates is in the form that the comparisons use.
validate_hostname-normal :
    (host : Bytes) → validate_hostname host ≡ true → to_lower (trim_dot host) ≡ host
validate_hostname-normal host h =
    rw (validate_hostname-trim_dot host h) (to_lower-host host (validate_hostname-bytes host h))

trusted_copilot_host-normal :
    (host github : Bytes)
    → to_lower (trim_dot host) ≡ host
    → to_lower (trim_dot github) ≡ github
    → trusted_copilot_host host github ≡ (
        host == copilot_host
        || has_suffix (46 ∷ copilot_host) host
        || host == github
        || has_suffix (46 ∷ github) host)
unfolding trusted_copilot_host
trusted_copilot_host-normal host github n m = rw (n, m) refl

Under-cases :
    (domain host : Bytes)
    → (host == domain || has_suffix (46 ∷ domain) host) ≡ true
    → Under domain host
unfolding bytes_eq
Under-cases domain host h = elim (Bool-cases (host == domain)) [
  | inl a ↦ inl (eq→path host domain a)
  | inr a ↦ inr (has_suffix-append (46 ∷ domain) host (ground (arith, h, a)))
]

or-pairs : (a b c d : Bool) → (a || b || c || d) ≡ true → ((a || b) ≡ true) ⊎ ((c || d) ≡ true)
or-pairs true b c d h = inl refl
or-pairs false true c d h = inl refl
or-pairs false false c d h = inr h

trusted_copilot_host-Under :
    (host github : Bytes)
    → validate_hostname host ≡ true
    → validate_hostname github ≡ true
    → trusted_copilot_host host github ≡ true
    → Under copilot_host host ⊎ Under github host
trusted_copilot_host-Under host github v w h =
    let shape =
      trusted_copilot_host-normal host github (validate_hostname-normal host v)
        (validate_hostname-normal github w) in
    elim (or-pairs (host == copilot_host) (has_suffix (46 ∷ copilot_host) host) (host == github)
      (has_suffix (46 ∷ github) host) (sym shape ∙ h)) [
        | inl a ↦ inl (Under-cases copilot_host host a)
        | inr a ↦ inr (Under-cases github host a)
      ]

-- A host to which the session token may go: a proper host name under githubcopilot.com or the
-- configured GitHub host, or "api." for "proxy." before such a name.
abbrev pub MayReceive : Bytes → Bytes → Type 0
MayReceive github host =
    All IsHostByte host
    × ((Under copilot_host host ⊎ Under github host)
        ⊎ ((s : Bytes) × (host ≡ codes "api." ++ s)
            × (Under copilot_host (codes "proxy." ++ s) ⊎ Under github (codes "proxy." ++ s))))

All-right {ℓ κ} : {A : Type ℓ} (P : A → Type κ) (xs ys : List A) → All P (xs ++ ys) → All P ys
All-right P [] ys h = h
All-right P (x ∷ xs) ys h = All-right P xs ys h.1

api_host-MayReceive :
    (github host : Bytes)
    → All IsHostByte host
    → (Under copilot_host host ⊎ Under github host)
    → MayReceive github (api_host host)
unfolding api_host is_alnum is_digit
api_host-MayReceive github host bytes u = elim (Option-cases (cut_prefix (codes "proxy.") host)) [
  | inl e ↦ rw (api_host, e) (bytes, inl u)
  | inr (rest, e) ↦
      let shape = cut_prefix-rest (codes "proxy.") host rest e in
      let tail = All-right IsHostByte (codes "proxy.") rest (subst (All IsHostByte) shape bytes) in
      rw (api_host, e)
        (
          (refl, (refl, (refl, (refl, tail)))),
          inr (rest, refl, subst (λ t. Under copilot_host t ⊎ Under github t) shape u),
        )
]

module _ (url_parse : Bytes → Option Url) (is_ip : Bytes → Bool) where
  proxy_host_lem :
      (github : Bytes) (fields : List Bytes) (host : Bytes)
      → proxy_host url_parse is_ip github fields ≡ some host
      → (validate_hostname host ≡ true) × (trusted_copilot_host host github ≡ true)
  unfolding proxy_host
  proxy_host_lem github [] host h = absurd (ground (arith, h))
  proxy_host_lem github (field ∷ fields) host h =
      ground (arith, h, proxy_host_lem github fields host)

  normalize_github_host_lem :
      (raw host : Bytes)
      → normalize_github_host url_parse is_ip raw ≡ some host
      → validate_hostname host ≡ true
  unfolding normalize_github_host
  normalize_github_host_lem raw host h = ground (arith, h)

  -- For a valid GitHub host, requests with the session token go to the fallback of that host, or
  -- to an HTTPS host that is a proper host name under githubcopilot.com or the GitHub host, or bears
  -- "api." in place of the "proxy." of such a name, whatever the token says.
  pub api_base_from_session_token-trusted :
      (token github_host github : Bytes)
      → normalize_github_host url_parse is_ip github_host ≡ some github
      → (api_base_from_session_token url_parse is_ip token github_host
          ≡ (endpoints_of github).fallback_api_url)
        ⊎ ((host : Bytes) × (api_base_from_session_token url_parse is_ip token github_host
              ≡ https_prefix ++ host)
            × MayReceive github host)
  unfolding api_base_from_session_token
  api_base_from_session_token-trusted token github_host github e =
      elim (Option-cases (proxy_host url_parse is_ip github (split 59 token))) [
        | inl f ↦ inl (rw (api_base_from_session_token, e, f) refl)
        | inr (host, f) ↦
            let (v, t) = proxy_host_lem github (split 59 token) host f in
            let w = normalize_github_host_lem github_host github e in
            inr (
              api_host host,
              rw (api_base_from_session_token, e, f) refl,
              api_host-MayReceive github host (validate_hostname-bytes host v)
                  (trusted_copilot_host-Under host github v w t),
            )
      ]

-- ===== src/App/ClientKey/Spoofing.antt =====
-- internal/app/security.go: what a caller can do about the key by which it is counted.
use mathlib.Core.List.{reverse-append, reverse-cons, append_assoc}
use cpa_github_copilot.Common.{
  ◌≡◌, ap, true, false, Option, none, some, List, [], ◌∷◌, ◌++◌, reverse, arith, All, All-reverse,
}
use cpa_github_copilot.App.ClientKey.{
  Addr, Prefix, unmap, trusted_addr, scan_hops, group_address, client_key,
}

-- A hop that is the address of a trusted proxy.
abbrev pub IsProxy : List Prefix → Option Addr → Type 0
IsProxy prefixes none = ⊥
IsProxy prefixes (some a) = trusted_addr prefixes (unmap a) ≡ true

scan_hops_stop :
    (prefixes : List Prefix) (at : Addr) (hop : Addr) (proxies rest : List (Option Addr))
    → All (IsProxy prefixes) proxies
    → trusted_addr prefixes (unmap hop) ≡ false
    → scan_hops prefixes at (proxies ++ some hop ∷ rest) ≡ unmap hop
unfolding scan_hops
scan_hops_stop prefixes at hop [] rest ps h = ground arith
scan_hops_stop prefixes at hop (none ∷ proxies) rest ps h = absurd ps.0
scan_hops_stop prefixes at hop (some p ∷ proxies) rest ps h =
    ground (arith, scan_hops_stop prefixes (unmap p) hop proxies rest ps.1 h)

-- Behind a trusted peer and any number of trusted proxies, the key is the address that the first
-- of them saw: the last hop that is no trusted proxy. Whatever hops the caller has put in front of
-- it, parsable or not, change nothing.
pub client_key_ignores_forged_hops :
    (prefixes : List Prefix) (peer hop : Addr) (forged proxies : List (Option Addr))
    → trusted_addr prefixes (unmap peer) ≡ true
    → All (IsProxy prefixes) proxies
    → trusted_addr prefixes (unmap hop) ≡ false
    → client_key prefixes (some peer) (forged ++ some hop ∷ proxies) ≡ group_address (unmap hop)
unfolding client_key
client_key_ignores_forged_hops prefixes peer hop forged proxies tp ps h =
    let turned : reverse (forged ++ some hop ∷ proxies)
        ≡ reverse proxies ++ some hop ∷ reverse forged =
      rw (reverse-append forged (some hop ∷ proxies), reverse-cons (some hop) proxies)
        (append_assoc (reverse proxies) (some hop ∷ []) (reverse forged)) in
    rw (tp, turned)
      (ap group_address (
        scan_hops_stop prefixes (unmap peer) hop (reverse proxies) (reverse forged)
          (All-reverse (IsProxy prefixes) proxies ps) h))

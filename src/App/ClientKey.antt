-- ===== src/App/ClientKey.antt =====
-- internal/app/security.go: `clientKey`, `trustedAddr` and the type `authClient`. An address is
-- what net/netip parses it to; a text that does not parse is `none`. A header's values come as the
-- list of its hops, split at the commas.
mod Spoofing
mod Examples
use cpa_github_copilot.Common.{
  ℕ, ◌*◌, ◌/◌, ◌%◌, ◌^◌, ◌-◌, ◌≡◌, ◌↔◌, Bool, true, false, ◌&&◌, Option, none, some, List, [], ◌∷◌,
  reverse, arith, nat_eq, if◌then◌else◌, any, Eq, Bytes, bytes_eq, bytes_eq_iff,
}

-- netip.Addr: the zero value, and the two families as numbers of 32 and 128 bits.
pub data Addr : Type 0 where
  invalid : Addr
  v4 : ℕ → Addr
  v6 : ℕ → Addr

unfoldable pub addr_eq : Addr → Addr → Bool
addr_eq invalid invalid = true
addr_eq (v4 a) (v4 b) = nat_eq a b
addr_eq (v6 a) (v6 b) = nat_eq a b
addr_eq _ _ = false

pub addr_eq_iff : (a b : Addr) → (addr_eq a b ≡ true) ↔ (a ≡ b)
unfolding addr_eq
addr_eq_iff a b = ground arith

-- Unmap: an IPv4 address that is mapped into IPv6 (::ffff:0:0/96) is the IPv4 one.
pub unmap : Addr → Addr
unmap (v6 n) = if nat_eq (n / 2 ^ 32) 0xffff then v4 (n % 2 ^ 32) else v6 n
unmap a = a

pub record Prefix : Type 0 where
  pub addr : Addr
  pub bits : ℕ

-- The leading `bits` of two addresses of one family.
pub within : Addr → ℕ → Addr → Bool
within (v4 a) bits (v4 b) = nat_eq (a / 2 ^ (32 - bits)) (b / 2 ^ (32 - bits))
within (v6 a) bits (v6 b) = nat_eq (a / 2 ^ (128 - bits)) (b / 2 ^ (128 - bits))
within _ _ _ = false

-- Prefix.Contains: the family is the same, and so are the leading bits.
pub contains : Prefix → Addr → Bool
unfolding within
contains p a = within p.addr p.bits a

pub trusted_addr : List Prefix → Addr → Bool
unfolding contains
trusted_addr prefixes addr = any (λ p. contains p addr) prefixes

-- The loop over the hops, from the last one back.
pub scan_hops : List Prefix → Addr → List (Option Addr) → Addr
unfolding trusted_addr unmap
scan_hops prefixes addr [] = addr
scan_hops prefixes addr (none ∷ hops) = addr
scan_hops prefixes addr (some hop ∷ hops) =
    let rest = scan_hops prefixes (unmap hop) hops in
    if trusted_addr prefixes (unmap hop) then rest else unmap hop

-- IPv6 clients are grouped by /64.
pub group_address : Addr → Addr
group_address (v6 n) = v6 (n / 2 ^ 64 * 2 ^ 64)
group_address a = a

pub client_key : List Prefix → Option Addr → List (Option Addr) → Addr
unfolding scan_hops group_address
client_key prefixes none hops = invalid
client_key prefixes (some peer) hops = group_address (
    if trusted_addr prefixes (unmap peer)
    then scan_hops prefixes (unmap peer) (reverse hops)
    else unmap peer)

pub record AuthClient : Type 0 where
  pub scope : Bytes
  pub addr : Addr

unfoldable pub client_eq : AuthClient → AuthClient → Bool
unfolding addr_eq
client_eq a b = bytes_eq a.scope b.scope && addr_eq a.addr b.addr

pub client_eq_iff : (a b : AuthClient) → (client_eq a b ≡ true) ↔ (a ≡ b)
unfolding client_eq
client_eq_iff a b = ground (arith, bytes_eq_iff a.scope b.scope, addr_eq_iff a.addr b.addr)

instance abbrev pub AuthClient_eq : Eq AuthClient
AuthClient_eq = record { is_equal = client_eq; is_equal_iff = client_eq_iff }

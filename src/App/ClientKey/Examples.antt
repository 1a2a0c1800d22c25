-- ===== src/App/ClientKey/Examples.antt =====
-- Runs of `clientKey`, and its theorems at concrete inputs.
use cpa_github_copilot.Common.{◌≡◌, refl, none, some, List, [], ◌∷◌}
use cpa_github_copilot.App.ClientKey.{
  v4, v6, Prefix, unmap, trusted_addr, group_address, client_key,
}
use cpa_github_copilot.App.ClientKey.Spoofing.{client_key_ignores_forged_hops}

-- 10.0.0.0/8.
abbrev proxies : List Prefix
proxies = record { addr = v4 0x0a000000; bits = 8 } ∷ []

-- The peer 10.0.0.1 and the hops "junk, 1.1.1.1, 8.8.8.8, 10.0.0.2".
client_key_ignores_forged_hops_example :
    client_key proxies
      (some (v4 0x0a000001))
      (none ∷ some (v4 0x01010101) ∷ some (v4 0x08080808) ∷ some (v4 0x0a000002) ∷ [])
    ≡ group_address (unmap (v4 0x08080808))
unfolding trusted_addr unmap
client_key_ignores_forged_hops_example =
    client_key_ignores_forged_hops proxies (v4 0x0a000001) (v4 0x08080808)
      (none ∷ some (v4 0x01010101) ∷ []) (some (v4 0x0a000002) ∷ []) refl (refl, tt) refl

-- A mapped address is the IPv4 one, and an IPv6 host is counted by its /64.
mapped_and_grouped :
    (client_key [] (some (v6 0xffff08080808)) [] ≡ v4 0x08080808)
    × (client_key [] (some (v6 0x20010db8000000010000000000000007)) []
        ≡ v6 0x20010db8000000010000000000000000)
unfolding client_key trusted_addr unmap
mapped_and_grouped = (refl, refl)

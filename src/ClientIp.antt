-- ===== src/ClientIp.antt =====
-- backend/src/util/net.rs and backend/src/util/cloudflare_ips.rs: which address a request comes from.
-- A header is here if it has only visible ASCII characters (`to_str`); a peer is `none` where the
-- server has not noted one.
pub mod Trust
mod Tests
use Prim.Native.Nat.{◌/◌, ◌%◌}
use lan_video.Prelude.{
  ℕ, zero, suc, ◌+◌, ◌-◌, ◌*◌, ◌^◌, ◌==◌, ltb, Bool, true, false, ◌&&◌, ◌||◌, Option, none, some,
  List, [], ◌∷◌, ◌++◌, any, map, take, if◌then◌else◌,
}
use lan_video.Prelude.Texts.{Text, text_eq, eq_ignore_ascii_case}
use lan_video.Prelude.Cuts.{codes, split, before, trim, decimal}
use lan_video.MediaAuth.{and_then, or_else}
use lan_video.MediaChecks.Addresses.{IpAddr, v4, v6, parse_ip}

-- What a request shows of its sender.
pub record Sender : Type 0 where
  pub peer : Option IpAddr
  pub cf_connecting_ip : Option Text
  pub x_forwarded_for : Option Text

-- What was set at the start, and the two variables of the environment.
pub record ProxySettings : Type 0 where
  pub proxy_conf : Option (Option Bool)
  pub proxy_env : Option Text
  pub peers_conf : Option (Option (List IpAddr))
  pub peers_env : Option Text

says_yes : Option Text → Bool
unfolding text_eq eq_ignore_ascii_case
says_yes none = false
says_yes (some v) = text_eq v (codes "1") || eq_ignore_ascii_case v (codes "true")

unfoldable pub trusted_proxy : ProxySettings → Bool
unfolding says_yes
trusted_proxy s = elim s.proxy_conf [
  | some (some b) ↦ b
  | some none ↦ false
  | none ↦ says_yes s.proxy_env
]

parse_peers : List Text → List IpAddr
unfolding parse_ip trim
parse_peers [] = []
parse_peers (p ∷ ps) =
    let rest = parse_peers ps in elim (parse_ip (trim p)) [ none ↦ rest | some ip ↦ ip ∷ rest ]

peers_of_env : Option Text → List IpAddr
unfolding parse_peers split
peers_of_env none = []
peers_of_env (some v) = parse_peers (split b',' v)

unless_empty : List IpAddr → Option (List IpAddr)
unless_empty [] = none
unless_empty (p ∷ ps) = some (p ∷ ps)

unfoldable pub trusted_proxy_peers : ProxySettings → Option (List IpAddr)
unfolding unless_empty peers_of_env
trusted_proxy_peers s = elim s.peers_conf [
  | some peers ↦ peers
  | none ↦ unless_empty (peers_of_env s.peers_env)
]

ip_eq : IpAddr → IpAddr → Bool
unfolding text_eq
ip_eq (v4 a b c d) (v4 a' b' c' d') = (a == a' && b == b') && (c == c' && d == d')
ip_eq (v6 ss) (v6 ts) = text_eq ss ts
ip_eq _ _ = false

-- `peers.contains(&ip)`, no list being an empty one.
unfoldable pub is_allowed : Option (List IpAddr) → IpAddr → Bool
unfolding any ip_eq
is_allowed none ip = false
is_allowed (some peers) ip = any (ip_eq ip) peers

-- A number of `w` bits without its last `w - prefix` ones, which the mask clears.
in_network : ℕ → ℕ → ℕ × ℕ → Bool
in_network w ip (network, prefix) = ip / 2 ^ (w - prefix) == network / 2 ^ (w - prefix)

v4_number : ℕ → ℕ → ℕ → ℕ → ℕ
v4_number a b c d = ((a * 256 + b) * 256 + c) * 256 + d

v6_number : ℕ → List ℕ → ℕ
v6_number n [] = n
v6_number n (s ∷ ss) = v6_number (n * 65536 + s) ss

cloudflare_ipv4 : List (ℕ × ℕ)
unfolding v4_number
cloudflare_ipv4 =
    (v4_number 173 245 48 0, 20)
    ∷ (v4_number 103 21 244 0, 22)
    ∷ (v4_number 103 22 200 0, 22)
    ∷ (v4_number 103 31 4 0, 22)
    ∷ (v4_number 141 101 64 0, 18)
    ∷ (v4_number 108 162 192 0, 18)
    ∷ (v4_number 190 93 240 0, 20)
    ∷ (v4_number 188 114 96 0, 20)
    ∷ (v4_number 197 234 240 0, 22)
    ∷ (v4_number 198 41 128 0, 17)
    ∷ (v4_number 162 158 0 0, 15)
    ∷ (v4_number 104 16 0 0, 13)
    ∷ (v4_number 104 24 0 0, 14)
    ∷ (v4_number 172 64 0 0, 13)
    ∷ (v4_number 131 0 72 0, 22)
    ∷ []

-- By the first two of eight segments.
v6_network : ℕ → ℕ → ℕ
unfolding v6_number
v6_network s t = v6_number 0 (s ∷ t ∷ 0 ∷ 0 ∷ 0 ∷ 0 ∷ 0 ∷ 0 ∷ [])

-- 2400:cb00, 2606:4700, 2803:f800, 2405:b500, 2405:8100, 2a06:98c0 and 2c0f:f248.
cloudflare_ipv6 : List (ℕ × ℕ)
unfolding v6_network
cloudflare_ipv6 =
    (v6_network 9216 51968, 32)
    ∷ (v6_network 9734 18176, 32)
    ∷ (v6_network 10243 63488, 32)
    ∷ (v6_network 9221 46336, 32)
    ∷ (v6_network 9221 33024, 32)
    ∷ (v6_network 10758 39104, 29)
    ∷ (v6_network 11279 62024, 32)
    ∷ []

unfoldable pub is_cloudflare_peer : IpAddr → Bool
unfolding any in_network cloudflare_ipv4 cloudflare_ipv6 v4_number v6_number
is_cloudflare_peer (v4 a b c d) = any (in_network 32 (v4_number a b c d)) cloudflare_ipv4
is_cloudflare_peer (v6 ss) = any (in_network 128 (v6_number 0 ss)) cloudflare_ipv6

-- The first entry of a header that may be a list.
unfoldable pub first_entry : Text → Option IpAddr
unfolding parse_ip trim before
first_entry v = parse_ip (trim (before b',' v))

-- The address that the headers of a believed peer name.
unfoldable pub named : ProxySettings → Sender → IpAddr → Option IpAddr
unfolding trusted_proxy is_allowed trusted_proxy_peers first_entry is_cloudflare_peer parse_ip
named s r peer =
    if trusted_proxy s
    then (if is_allowed (trusted_proxy_peers s) peer
        then or_else (and_then r.cf_connecting_ip first_entry)
            (and_then r.x_forwarded_for first_entry)
        else none)
    else if is_cloudflare_peer peer
    then and_then r.cf_connecting_ip parse_ip
    else none

-- `client_ip` before the address becomes a text, or `unknown`.
unfoldable pub client_address : ProxySettings → Sender → Option IpAddr
unfolding named
client_address s r = elim r.peer [ none ↦ none | some peer ↦ or_else (named s r peer) (some peer) ]

-- ===== src/ClientIp/Tests.antt =====
-- The address of a client at chosen inputs.
use lan_video.Prelude.{◌≡◌, ◌≢◌, refl, true, false, none, some, [], ◌∷◌, ◌++◌}
use mathlib.Core.Logic.{◌↔◌}
use lan_video.Prelude.Texts.{Text}
use lan_video.Prelude.Cuts.{codes}
use lan_video.MediaChecks.Addresses.{IpAddr, v4, v6, parse_ip}
use lan_video.ClientIp.{
  Sender, ProxySettings, trusted_proxy, trusted_proxy_peers, is_allowed, is_cloudflare_peer,
  first_entry, client_address,
}
use lan_video.ClientIp.Trust.{is_believed, client_address-Believed, client_address-forwarded}

-- The settings of the deployment document.
abbrev behind_nginx : ProxySettings
behind_nginx = record {
  proxy_conf = none;
  proxy_env = some (codes "1");
  peers_conf = none;
  peers_env = some (codes "127.0.0.1, 172.17.0.1");
}

abbrev bridge : IpAddr
bridge = v4 172 17 0 1

abbrev target : IpAddr
target = v4 10 0 0 7

parsed : parse_ip (codes "10.0.0.7") ≡ some target
unfolding parse_ip
parsed = refl

entered : first_entry (codes "10.0.0.7") ≡ some target
unfolding first_entry
entered = refl

trusted : trusted_proxy behind_nginx ≡ true
unfolding trusted_proxy
trusted = refl

listed : is_allowed (trusted_proxy_peers behind_nginx) bridge ≡ true
unfolding is_allowed trusted_proxy_peers
listed = refl

cloudflare : is_cloudflare_peer (v4 104 16 42 1) ≡ true
unfolding is_cloudflare_peer
cloudflare = refl

cloudflare_v6 :
    is_cloudflare_peer (v6 (9734 ∷ 18176 ∷ 12343 ∷ 0 ∷ 0 ∷ 0 ∷ 26645 ∷ 4660 ∷ [])) ≡ true
unfolding is_cloudflare_peer
cloudflare_v6 = refl

elsewhere : is_cloudflare_peer (v4 203 0 113 7) ≡ false
unfolding is_cloudflare_peer
elsewhere = refl

other_address : target ≢ bridge
other_address e = cc e

client_address-Believed_example :
    ((r : Sender) × (r.peer ≡ some bridge) × (client_address behind_nginx r ≡ some target))
    ↔ (is_believed behind_nginx bridge ≡ true)
client_address-Believed_example =
    client_address-Believed behind_nginx bridge target (codes "10.0.0.7") other_address parsed
      entered

-- What nginx makes of the header of the client 203.0.113.7.
abbrev appended : Text → Text
appended x = x ++ b',' ∷ codes " 203.0.113.7"

client_address-forwarded_example :
    (client_address behind_nginx (record {
      peer = some bridge;
      cf_connecting_ip = none;
      x_forwarded_for = some (appended (codes "10.0.0.7"));
    })
      ≡ some target)
    × ((x : Text)
        → client_address behind_nginx (record {
          peer = some bridge;
          cf_connecting_ip = some (codes "10.0.0.7");
          x_forwarded_for = some (appended x);
        })
          ≡ some target)
client_address-forwarded_example =
    client_address-forwarded behind_nginx bridge target (codes "10.0.0.7") appended
      (λ x. (codes " 203.0.113.7", refl)) trusted listed entered

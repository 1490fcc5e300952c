-- ===== src/ClientIp/Trust.antt =====
-- Who may name the address of a request, and what a client behind a proxy may.
use lan_video.Prelude.{
  ℕ, ◌≡◌, ◌≢◌, refl, sym, ap, ◌∙◌, Bool, true, false, none, some, [], ◌∷◌, ◌++◌, arith,
  if◌then◌else◌, Bool-cases, inl, inr, some-injective,
}
use mathlib.Core.Logic.{◌↔◌}
use lan_video.Prelude.Texts.{Text}
use lan_video.Prelude.Cuts.{split_once, before, trim}
use lan_video.MediaChecks.Addresses.{IpAddr, parse_ip}
use lan_video.ClientIp.{
  Sender, ProxySettings, trusted_proxy, trusted_proxy_peers, is_allowed, is_cloudflare_peer,
  first_entry, named, client_address,
}

before-append : (c : ℕ) (v rest : Text) → before c (v ++ c ∷ rest) ≡ before c v
unfolding before split_once
before-append c [] rest = ground arith
before-append c (x ∷ v) rest = ground (arith, before-append c v rest)

first_entry-append : (v rest : Text) → first_entry (v ++ b',' ∷ rest) ≡ first_entry v
unfolding first_entry
first_entry-append v rest = ap (λ x. parse_ip (trim x)) (before-append b',' v rest)

-- The peers whose headers count.
pub is_believed : ProxySettings → IpAddr → Bool
is_believed s peer =
    if trusted_proxy s then is_allowed (trusted_proxy_peers s) peer else is_cloudflare_peer peer

believed :
    (s : ProxySettings) (r : Sender) (peer : IpAddr)
    → is_believed s peer ≡ false
    → named s r peer ≡ none
unfolding is_believed named
believed s r peer h = ground arith

abbrev pub claiming : IpAddr → Text → Sender
claiming peer t = record { peer = some peer; cf_connecting_ip = some t; x_forwarded_for = none }

claimed :
    (s : ProxySettings) (peer other : IpAddr) (t : Text)
    → parse_ip t ≡ some other
    → first_entry t ≡ some other
    → is_believed s peer ≡ true
    → named s (claiming peer t) peer ≡ some other
unfolding is_believed named
claimed s peer other t e k h = elim (Bool-cases (trusted_proxy s)) [
  | inl p ↦ let a = rw p at h in rw (p, a, k) refl
  | inr p ↦ let a = rw p at h in rw (p, a, e) refl
]

-- The peers that can pass for another. Where a text names an address other than the peer's, both as a
-- whole and as a list with one entry, some headers make the server take the peer's request for one of
-- that address if and only if the settings believe the peer: with a trusted proxy the peers on the list,
-- and else the networks of Cloudflare.
pub client_address-Believed :
    (s : ProxySettings) (peer other : IpAddr) (t : Text)
    → other ≢ peer
    → parse_ip t ≡ some other
    → first_entry t ≡ some other
    → ((r : Sender) × (r.peer ≡ some peer) × (client_address s r ≡ some other))
      ↔ (is_believed s peer ≡ true)
unfolding client_address
client_address-Believed s peer other t n e k =
    (only, λ h. (claiming peer t, refl, rw (claimed s peer other t e k h) refl))
  where
    only :
        (r : Sender) × (r.peer ≡ some peer) × (client_address s r ≡ some other)
        → is_believed s peer ≡ true
    only (r, p, c) = elim (Bool-cases (is_believed s peer)) [
      | inl h ↦ h
      | inr h ↦ absurd (n (some-injective (sym c ∙ rw (p, believed s r peer h) refl)))
    ]

-- A client behind a proxy chooses its address. Where the settings trust a proxy and list it, and the
-- proxy puts a comma and more behind the header X-Forwarded-For that it gets, a request counts as one of
-- whatever address the client puts first in that header; and with any such header, as one of whatever
-- address it puts first in CF-Connecting-IP, which the proxy leaves as it is.
pub client_address-forwarded :
    (s : ProxySettings) (proxy chosen : IpAddr) (v : Text) (forwarded : Text → Text)
    → ((x : Text) → (rest : Text) × (forwarded x ≡ x ++ b',' ∷ rest))
    → trusted_proxy s ≡ true
    → is_allowed (trusted_proxy_peers s) proxy ≡ true
    → first_entry v ≡ some chosen
    → (client_address s (record {
      peer = some proxy;
      cf_connecting_ip = none;
      x_forwarded_for = some (forwarded v);
    })
        ≡ some chosen)
      × ((x : Text)
          → client_address s (record {
            peer = some proxy;
            cf_connecting_ip = some v;
            x_forwarded_for = some (forwarded x);
          })
            ≡ some chosen)
unfolding client_address named
client_address-forwarded s proxy chosen v forwarded f t a k =
    let (rest, e) = f v in
    let m : first_entry (forwarded v) ≡ some chosen =
      ap first_entry e ∙ first_entry-append v rest ∙ k in
    (rw (t, a, m) refl, λ x. rw (t, a, k) refl)

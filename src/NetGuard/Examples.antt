-- ===== src/NetGuard/Examples.antt =====
-- Tests of the outbound guard, with numbers for addresses: 0 is link-local, 1 is private.
use dbbuddy.Base.{
  ℕ, ◌≡◌, ◌↔◌, refl, true, false, ◌==◌, none, some, List, [], ◌∷◌, Text, codes, same, if◌then◌else◌,
}
use dbbuddy.NetGuard.{
  Network, ok, refused, private_network, link_local, validate_outbound_url, resolve_and_pin,
  block_private_networks,
}
use dbbuddy.NetGuard.Pinning.{Pinned, resolve_and_pin-Pinned}

abbrev net : Network
net = record {
  Address = ℕ;
  urlparse = λ url. (codes "HTTPS", url);
  ip_address = λ host. if same host (codes "one") then some 1 else none;
  show = λ ip. ip ∷ [];
  is_link_local = λ ip. ip == 0;
  is_loopback = λ ip. false;
  is_private = λ ip. ip == 1;
  is_reserved = λ ip. false;
}

abbrev resolver : Text → List ℕ
resolver host = 7 ∷ 8 ∷ []

-- A link-local address behind a public one.
abbrev mixed : Text → List ℕ
mixed host = 7 ∷ 0 ∷ []

setting_read : block_private_networks (codes " Yes ") ≡ true
unfolding block_private_networks same
setting_read = refl

mixed_refused : resolve_and_pin net false mixed (codes "api") ≡ refused link_local
unfolding resolve_and_pin same
mixed_refused = refl

literal_refused : resolve_and_pin net true resolver (codes "one") ≡ refused private_network
unfolding resolve_and_pin same
literal_refused = refl

literal_validated :
    validate_outbound_url net false resolver (some (codes " one")) ≡ ok (some (codes "one"))
unfolding validate_outbound_url same
literal_validated = refl

resolve_and_pin-Pinned_example :
    (resolve_and_pin net true resolver (codes "api") ≡ ok (codes "api", 7 ∷ []))
    ↔ Pinned net true resolver (codes "api") (7 ∷ [])
resolve_and_pin-Pinned_example = resolve_and_pin-Pinned net true resolver (codes "api") (7 ∷ [])

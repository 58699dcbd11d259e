-- ===== src/NetGuard.antt =====
-- dbbuddy_core/net_guard.py: which addresses an outbound call may reach. Python's `urlparse` and
-- `ipaddress`, and the lookup of names, are arguments.
pub mod Pinning
mod Examples
use dbbuddy.Base.{
  ℕ, Bool, true, false, not, ◌&&◌, ◌||◌, if◌then◌else◌, Option, none, some, String, List, [], ◌∷◌,
  map, Text, same, codes, empty, lower, strip, member,
}

-- `urlparse` gives a scheme and a host, which is empty where there is none; `ip_address` reads a
-- literal address or raises, which is none.
pub record Network : Type 1 where
  pub Address : Type 0
  pub urlparse : Text → Text × Text
  pub ip_address : Text → Option Address
  pub show : Address → Text
  pub is_link_local : Address → Bool
  pub is_loopback : Address → Bool
  pub is_private : Address → Bool
  pub is_reserved : Address → Bool

pub data Refusal : Type 0 where
  link_local : Refusal
  private_network : Refusal
  bad_scheme : Refusal
  no_host : Refusal
  unresolved : Refusal

pub data Result {ℓ} (A : Type ℓ) : Type ℓ where
  ok : A → Result A
  refused : Refusal → Result A

unfoldable pub block_private_networks : (setting : Text) → Bool
unfolding strip lower member
block_private_networks setting =
    member (lower (strip setting)) (map codes ("1" ∷ "true" ∷ "yes" ∷ []))

abbrev pub allowed_schemes : List Text
allowed_schemes = codes "http" ∷ codes "https" ∷ []

module _ (net : Network) (block_private : Bool) where
  open net use {
    Address, urlparse, ip_address, show, is_link_local, is_loopback, is_private, is_reserved,
  }

  -- None where the address may be reached.
  unfoldable pub check_address : Address → Option Refusal
  check_address ip =
      if is_link_local ip
      then some link_local
      else (if block_private && (is_loopback ip || (is_private ip || is_reserved ip))
          then some private_network
          else none)

  -- `for ip in addresses: check_address(ip)`.
  unfoldable pub check_all : List Address → Option Refusal
  unfolding check_address
  check_all [] = none
  check_all (ip ∷ ips) = elim (check_address ip) [ none ↦ check_all ips | some r ↦ some r ]

  -- `_parse`: the host.
  unfoldable pub parse_host : (url : Text) → Result Text
  unfolding lower member
  parse_host url =
      let (scheme, host) = urlparse url in
      if not (member (lower scheme) allowed_schemes)
      then refused bad_scheme
      else (if empty host then refused no_host else ok host)

  unfoldable pub addresses_of : (resolver : Text → List Address) → (host : Text) → List Address
  addresses_of resolver host = elim (ip_address host) [ none ↦ resolver host | some ip ↦ ip ∷ [] ]

  unfoldable pub validate_outbound_url :
      (resolver : Text → List Address) → Option Text → Result (Option Text)
  unfolding strip parse_host check_all addresses_of
  validate_outbound_url resolver none = ok none
  validate_outbound_url resolver (some url) =
      if empty (strip url) then ok (some url) else (elim (parse_host (strip url)) [
        | refused r ↦ refused r
        | ok host ↦ (elim (check_all (addresses_of resolver host)) [
          | some r ↦ refused r
          | none ↦ ok (some (strip url))
        ])
      ])

  -- The first address, once all are checked.
  unfoldable pub pin : (url : Text) → List Address → Result (Text × Text)
  unfolding check_all
  pin url [] = refused unresolved
  pin url (ip ∷ ips) = elim (check_all (ip ∷ ips)) [ none ↦ ok (url, show ip) | some r ↦ refused r ]

  unfoldable pub resolve_and_pin :
      (resolver : Text → List Address) → (url : Text) → Result (Text × Text)
  unfolding parse_host pin check_address
  resolve_and_pin resolver url = elim (parse_host url) [
    | refused r ↦ refused r
    | ok host ↦ (elim (ip_address host) [
      | some literal ↦ (elim (check_address literal) [
        | some r ↦ refused r
        | none ↦ ok (url, show literal)
      ])
      | none ↦ pin url (resolver host)
    ])
  ]

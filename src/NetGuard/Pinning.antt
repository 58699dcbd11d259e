-- ===== src/NetGuard/Pinning.antt =====
-- The address that is dialled is one that may be reached, whatever the names resolve to.
use dbbuddy.Base.{
  ◌≡◌, ◌↔◌, refl, sym, ap, ◌∙◌, Bool, true, false, none, Option-cases, List, [], ◌∷◌, Text, empty,
  lower, member, Holds, arith, Bool-cases, inl, inr, ◌⊎◌,
}
use dbbuddy.NetGuard.{
  Network, Refusal, Result, ok, refused, allowed_schemes, check_address, check_all, parse_host,
  addresses_of, pin, resolve_and_pin,
}

result_cases {ℓ} :
    {A : Type ℓ} (r : Result A) → ((a : A) × (r ≡ ok a)) ⊎ ((e : Refusal) × (r ≡ refused e))
result_cases (ok a) = inl (a, refl)
result_cases (refused e) = inr (e, refl)

module _ (net : Network) (block_private : Bool) where
  open net use {
    Address, urlparse, ip_address, show, is_link_local, is_loopback, is_private, is_reserved,
  }

  -- Never link-local, and no address of the deployment's own networks where these are blocked.
  abbrev pub IsPermitted : Address → Type 0
  IsPermitted ip =
      (is_link_local ip ≡ false)
      × (block_private ≡ true
          → (is_loopback ip ≡ false) × (is_private ip ≡ false) × (is_reserved ip ≡ false))

  checked-IsPermitted : (ip : Address) → check_address net block_private ip ≡ none → IsPermitted ip
  unfolding check_address
  checked-IsPermitted ip h =
      (ground (arith, h), λ b. (ground (arith, h, b), ground (arith, h, b), ground (arith, h, b)))

  all-IsPermitted :
      (ips : List Address) → check_all net block_private ips ≡ none → Holds IsPermitted ips
  unfolding check_all
  all-IsPermitted [] h = tt
  all-IsPermitted (ip ∷ ips) h = elim (Option-cases (check_address net block_private ip)) [
    | inl e ↦ (checked-IsPermitted ip e, all-IsPermitted ips (ground (arith, h, e)))
    | inr (r, e) ↦ absurd (ground (arith, h, e))
  ]

  permitted_checked : (ip : Address) → IsPermitted ip → check_address net block_private ip ≡ none
  unfolding check_address
  permitted_checked ip h = elim (Bool-cases block_private) [
    | inl b ↦ let own = h.1 b in ground (arith, h.0, own)
    | inr b ↦ ground (arith, h.0, b)
  ]

  permitted_all :
      (ips : List Address) → Holds IsPermitted ips → check_all net block_private ips ≡ none
  unfolding check_all
  permitted_all [] h = refl
  permitted_all (ip ∷ ips) h = ground (arith, permitted_checked ip h.0, permitted_all ips h.1)

  abbrev pub IsHttp : Text → Type 0
  IsHttp url =
      (member (lower (urlparse url).0) allowed_schemes ≡ true) × (empty (urlparse url).1 ≡ false)

  parse_host-IsHttp :
      (url host : Text)
      → parse_host net block_private url ≡ ok host
      → IsHttp url × (host ≡ (urlparse url).1)
  unfolding parse_host
  parse_host-IsHttp url host h = (ground (arith, h), ground (arith, h))

  IsHttp-parse_host :
      (url : Text) → IsHttp url → parse_host net block_private url ≡ ok (urlparse url).1
  unfolding parse_host
  IsHttp-parse_host url h = ground (arith, h.0, h.1)

  -- The address that `pin` settles on, and the others that the same lookup gave.
  abbrev pub Pinned : (resolver : Text → List Address) → Text → Text → Type 0
  Pinned resolver url pinned =
      IsHttp url
      × (ip : Address) × (ips : List Address) × (addresses_of net block_private resolver
            (urlparse url).1
          ≡ ip ∷ ips)
      × (pinned ≡ show ip)
      × Holds IsPermitted (ip ∷ ips)

  -- What `pin` does with the addresses of one lookup.
  abbrev Settles : List Address → Text → Text → Text → Type 0
  Settles addresses url u pinned =
      (u ≡ url)
      × (ip : Address) × (ips : List Address) × (addresses ≡ ip ∷ ips)
      × (pinned ≡ show ip)
      × Holds IsPermitted (ip ∷ ips)

  pin-Settles :
      (url u pinned : Text) (addresses : List Address)
      → pin net block_private url addresses ≡ ok (u, pinned)
      → Settles addresses url u pinned
  unfolding pin
  pin-Settles url u pinned [] h = cc
  pin-Settles url u pinned (ip ∷ ips) h =
      elim (Option-cases (check_all net block_private (ip ∷ ips))) [
        | inl e ↦ (
          ground (arith, h, e),
          ip,
          ips,
          refl,
          ground (arith, h, e),
          all-IsPermitted (ip ∷ ips) e,
        )
        | inr (r, e) ↦ absurd (ground (arith, h, e))
      ]

  -- A literal address is pinned as a lookup that gives only itself would be.
  resolve_and_pin-pin :
      (resolver : Text → List Address) (url : Text)
      → IsHttp url
      → resolve_and_pin net block_private resolver url
        ≡ pin net block_private url (addresses_of net block_private resolver (urlparse url).1)
  unfolding resolve_and_pin pin addresses_of check_all
  resolve_and_pin-pin resolver url h = ground (arith, IsHttp-parse_host url h)

  resolve_and_pin-IsHttp :
      (resolver : Text → List Address) (url u pinned : Text)
      → resolve_and_pin net block_private resolver url ≡ ok (u, pinned)
      → IsHttp url
  unfolding resolve_and_pin
  resolve_and_pin-IsHttp resolver url u pinned h =
      elim (result_cases (parse_host net block_private url)) [
        | inl (host, e) ↦ (parse_host-IsHttp url host e).0
        | inr (r, e) ↦ absurd (ground (arith, h, e))
      ]

  -- Whatever the lookup of names gives: `resolve_and_pin` returns the URL with an address exactly
  -- when the URL has the scheme http or https and a host, the address is the first that one
  -- lookup of the host gives, or the host itself where that is an address, and no address of that
  -- lookup is link-local or, where the deployment blocks its own networks, loopback, private or
  -- reserved.
  pub resolve_and_pin-Pinned :
      (resolver : Text → List Address) (url pinned : Text)
      → (resolve_and_pin net block_private resolver url ≡ ok (url, pinned))
        ↔ Pinned resolver url pinned
  unfolding pin
  resolve_and_pin-Pinned resolver url pinned = (
    λ h.
        let http = resolve_and_pin-IsHttp resolver url url pinned h in
        let settled =
          pin-Settles url url pinned _ (sym (resolve_and_pin-pin resolver url http) ∙ h) in
        (http, settled.1, settled.2, settled.3, settled.4, settled.5),
    λ p.
        let all_fine = permitted_all (p.1 ∷ p.2) p.5 in
        resolve_and_pin-pin resolver url p.0
        ∙ (ap (pin net block_private url) p.3 ∙ ground (arith, all_fine, p.4)),
  )

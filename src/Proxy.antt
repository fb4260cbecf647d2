-- ===== src/Proxy.antt =====
-- internal/httpserver/ratelimit.go: the proxies whose X-Forwarded-For is believed, and the address
-- that a request is attributed to.
pub mod Edge
use zorkd.Base.{
  Bool, true, false, ◌&&◌, not, ◌≡◌, ◌↔◌, Option, none, some, List, [], ◌∷◌, ◌++◌, reverse,
  if◌then◌else◌, Text,
}
use zorkd.Errors.{Result, ok, err, refuse}
use zorkd.Go.Space.{trim_space}
use zorkd.Go.Split.{split}
use zorkd.Game.SaveName.{is_empty}

-- Packages net and net/netip, as far as the program calls them: an address is compared by ==.
pub record Netip : Type 1 where
  pub Addr : Type 0
  pub Prefix : Type 0
  pub same : Addr → Addr → Bool
  pub same_iff : (a b : Addr) → (same a b ≡ true) ↔ (a ≡ b)
  pub parse_addr : Text → Option Addr
  pub parse_prefix : Text → Option Prefix
  pub is_single_ip : Prefix → Bool
  pub prefix_addr : Prefix → Addr
  pub unmap : Addr → Addr
  pub is_loopback : Addr → Bool
  pub to_string : Addr → Text
  -- net.SplitHostPort, the host of it
  pub split_host : Text → Option Text

-- The part of http.Request that is read.
pub record Request : Type 0 where
  pub remote_addr : Text
  -- r.Header.Values("X-Forwarded-For")
  pub forwarded : List Text

unfoldable pub source_key : ⦃net : Netip⦄ → Request → Text
source_key ⦃net⦄ r = elim (net.split_host r.remote_addr) [ none ↦ r.remote_addr | some host ↦ host ]

unfoldable pub forwarded_for : List Text → List Text
forwarded_for [] = []
forwarded_for (value ∷ values) = split b',' value ++ forwarded_for values

module _ ⦃net : Netip⦄ where
  unfoldable accept : net.Addr → Result net.Addr
  accept addr = let a = net.unmap addr in if net.is_loopback a then ok a else refuse

  unfoldable pub parse_trusted_proxy : Text → Result net.Addr
  unfolding accept
  parse_trusted_proxy field = elim (net.parse_addr field) [
    | some addr ↦ accept addr
    | none ↦ elim (net.parse_prefix field) [
      | none ↦ refuse
      | some p ↦ if net.is_single_ip p then accept (net.prefix_addr p) else refuse
    ]
  ]

  -- The loop of ParseTrustedProxies, over the fields that are left.
  unfoldable pub parse_fields : List Text → List net.Addr → Result (List net.Addr)
  parse_fields [] addrs = ok addrs
  parse_fields (field ∷ fields) addrs =
      let skipped = parse_fields fields addrs in
      if is_empty (trim_space field)
      then skipped
      else elim (parse_trusted_proxy (trim_space field)) [
        | err e ↦ err e
        | ok addr ↦ parse_fields fields (addrs ++ addr ∷ [])
      ]

  unfoldable pub parse_trusted_proxies : Text → Result (List net.Addr)
  parse_trusted_proxies list = parse_fields (split b',' list) []

  -- trustedProxies.has
  unfoldable pub has : net.Addr → List net.Addr → Bool
  has addr [] = false
  has addr (proxy ∷ t) = let rest = has addr t in if net.same proxy addr then true else rest

  -- The loop of trustedProxies.clientIP, over the hops from the nearest one on.
  unfoldable pub walk : List net.Addr → Text → List Text → Text
  walk t peer [] = peer
  walk t peer (hop ∷ hops) =
      let further = walk t peer hops in
      if is_empty (trim_space hop) then further else elim (net.parse_addr (trim_space hop)) [
        | none ↦ peer
        | some addr ↦ if has (net.unmap addr) t then further else net.to_string (net.unmap addr)
      ]

  unfoldable believes : List net.Addr → Text → Bool
  believes t peer = elim (net.parse_addr peer) [ none ↦ false | some addr ↦ has (net.unmap addr) t ]

  -- trustedProxies.clientIP
  unfoldable pub client_ip : List net.Addr → Request → Text
  unfolding believes
  client_ip [] r = source_key r
  client_ip (proxy ∷ t) r =
      let peer = source_key r in
      if believes (proxy ∷ t) peer
      then walk (proxy ∷ t) peer (reverse (forwarded_for r.forwarded))
      else peer

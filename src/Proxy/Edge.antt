-- ===== src/Proxy/Edge.antt =====
-- What trusting a proxy lets a client choose: nothing left of the first hop that is not trusted.
use zorkd.Base.{
  Bool, true, false, ◌≡◌, ◌≢◌, subst, refl, ap, ◌∙◌, ◌⊎◌, inl, inr, none, some, List, [], ◌∷◌, ◌++◌,
  reverse, All, All-append, if◌then◌else◌, Text, Bool-cases, Option-cases,
}
use mathlib.Core.List.{reverse-append, append_assoc, reverse-cons}
use zorkd.Errors.{Error, ok, err, refuse, Result-cases}
use zorkd.Go.Space.{trim_space}
use zorkd.Go.Split.{split}
use zorkd.Game.SaveName.{is_empty}
use zorkd.Proxy.{
  Netip, Request, source_key, forwarded_for, accept, parse_trusted_proxy, parse_fields,
  parse_trusted_proxies, has, walk, believes, client_ip,
}

module _ {ℓ} {A : Type ℓ} where
  ok-injective : (a b : A) → ok a ≡ ok b → a ≡ b
  ok-injective a b e = cc

  err-ok : (x : Error) (b : A) → err x ≢ ok b
  err-ok x b e = absurd cc

  refuse-ok : (b : A) → refuse ≢ ok b
  refuse-ok b e = absurd cc

module _ ⦃net : Netip⦄ where
  -- A hop that the walk passes over: a blank one, or a trusted address.
  unfoldable pub passes_over : List net.Addr → Text → Bool
  passes_over t hop =
      if is_empty (trim_space hop) then true else elim (net.parse_addr (trim_space hop)) [
        | none ↦ false
        | some addr ↦ has (net.unmap addr) t
      ]

  -- What the walk answers at a hop that it does not pass over.
  answer : Text → Text → Text
  answer peer hop = elim (net.parse_addr (trim_space hop)) [
    | none ↦ peer
    | some addr ↦ net.to_string (net.unmap addr)
  ]

  walk-cons :
      (t : List net.Addr) (peer hop : Text) (left : List Text)
      → walk t peer (hop ∷ left) ≡ (if passes_over t hop then walk t peer left else answer peer hop)
  unfolding walk passes_over answer
  walk-cons t peer hop left = elim (Bool-cases (is_empty (trim_space hop))) [
    | inl p ↦ rw p refl
    | inr p ↦ rw p (elim (Option-cases (net.parse_addr (trim_space hop))) [
      | inl q ↦ rw (q, answer) refl
      | inr (a, q) ↦ rw (q, answer) refl
    ])
  ]

  walk-edge :
      (t : List net.Addr) (peer hop : Text) (right left left' : List Text)
      → passes_over t hop ≡ false
      → walk t peer (right ++ hop ∷ left) ≡ walk t peer (right ++ hop ∷ left')
  walk-edge t peer hop [] left left' h =
      rw (walk-cons t peer hop left, walk-cons t peer hop left', h) refl
  walk-edge t peer hop (r ∷ right) left left' h =
      rw
        (
          walk-cons t peer r (right ++ hop ∷ left),
          walk-cons t peer r (right ++ hop ∷ left'),
          walk-edge t peer hop right left left' h,
        )
        refl

  walk-untrusted :
      (t : List net.Addr) (peer : Text) (hops : List Text)
      → (walk t peer hops ≡ peer)
        ⊎ ((a : net.Addr) × (has a t ≡ false) × (walk t peer hops ≡ net.to_string a))
  unfolding passes_over answer
  walk-untrusted t peer [] = inl (unfold walk in refl)
  walk-untrusted t peer (hop ∷ hops) =
      rw (walk-cons t peer hop hops) (elim (Bool-cases (is_empty (trim_space hop))) [
        | inl p ↦ rw p (walk-untrusted t peer hops)
        | inr p ↦ rw p (elim (Option-cases (net.parse_addr (trim_space hop))) [
          | inl q ↦ rw (q, answer) (inl refl)
          | inr (a, q) ↦
              rw (q, answer)
                (elim (Bool-cases (has (net.unmap a) t)) [
                  | inl u ↦ rw u (walk-untrusted t peer hops)
                  | inr u ↦ inr (net.unmap a, u, rw u refl)
                ])
        ])
      ])

  -- The hops from the nearest one on.
  reverse-hops :
      (hop : Text) (left right : List Text)
      → reverse (left ++ hop ∷ right) ≡ reverse right ++ hop ∷ reverse left
  reverse-hops hop left right =
      reverse-append left (hop ∷ right)
      ∙ ap (λ (x : List Text). x ++ reverse left) (reverse-cons hop right)
      ∙ append_assoc (reverse right) (hop ∷ []) (reverse left)

  -- Two requests from one peer, whose chains of hops are the same from some hop to the right, are
  -- attributed to the same address, if that hop is one that the walk does not pass over: it is
  -- not blank, and it is no address or one that is not trusted. What stands left of it does not
  -- matter.
  pub client_ip-edge :
      (t : List net.Addr) (r r' : Request) (hop : Text) (left left' right : List Text)
      → r.remote_addr ≡ r'.remote_addr
      → forwarded_for r.forwarded ≡ left ++ hop ∷ right
      → forwarded_for r'.forwarded ≡ left' ++ hop ∷ right
      → passes_over t hop ≡ false
      → client_ip t r ≡ client_ip t r'
  unfolding client_ip source_key
  client_ip-edge [] r r' hop left left' right p e f h = rw p refl
  client_ip-edge (a ∷ t) r r' hop left left' right p e f h =
      rw
        (
          p,
          e,
          f,
          reverse-hops hop left right,
          reverse-hops hop left' right,
          walk-edge (a ∷ t) (source_key r') hop (reverse right) (reverse left) (reverse left') h,
        )
        refl

  -- A request is attributed to its peer, or to the text of an address that is not trusted.
  client_ip-untrusted :
      (t : List net.Addr) (r : Request)
      → (client_ip t r ≡ source_key r)
        ⊎ ((a : net.Addr) × (has a t ≡ false) × (client_ip t r ≡ net.to_string a))
  unfolding client_ip
  client_ip-untrusted [] r = inl refl
  client_ip-untrusted (a ∷ t) r = elim (Bool-cases (believes (a ∷ t) (source_key r))) [
    | inl p ↦ rw p (walk-untrusted (a ∷ t) (source_key r) (reverse (forwarded_for r.forwarded)))
    | inr p ↦ rw p (inl refl)
  ]

  accept-loopback : (addr a : net.Addr) → accept addr ≡ ok a → net.is_loopback a ≡ true
  unfolding accept
  accept-loopback addr a e = elim (Bool-cases (net.is_loopback (net.unmap addr))) [
    | inl p ↦
        subst (λ (x : net.Addr). net.is_loopback x ≡ true)
          (ok-injective (net.unmap addr) a (rw p at e)) p
    | inr p ↦ absurd (refuse-ok a (rw p at e))
  ]

  parse_trusted_proxy-loopback :
      (field : Text) (a : net.Addr) → parse_trusted_proxy field ≡ ok a → net.is_loopback a ≡ true
  unfolding parse_trusted_proxy
  parse_trusted_proxy-loopback field a e = elim (Option-cases (net.parse_addr field)) [
    | inr (addr, p) ↦ accept-loopback addr a (rw (p, parse_trusted_proxy) at e)
    | inl p ↦ elim (Option-cases (net.parse_prefix field)) [
      | inl q ↦ absurd (refuse-ok a (rw q at (rw (p, parse_trusted_proxy) at e)))
      | inr (x, q) ↦ elim (Bool-cases (net.is_single_ip x)) [
        | inl g ↦
            accept-loopback (net.prefix_addr x) a
              (rw g at (rw q at (rw (p, parse_trusted_proxy) at e)))
        | inr g ↦ absurd (refuse-ok a (rw g at (rw q at (rw (p, parse_trusted_proxy) at e))))
      ]
    ]
  ]

  parse_fields-loopback :
      (fields : List Text) (addrs found : List net.Addr)
      → All (λ a. net.is_loopback a ≡ true) addrs
      → parse_fields fields addrs ≡ ok found
      → All (λ a. net.is_loopback a ≡ true) found
  unfolding parse_fields
  parse_fields-loopback [] addrs found h e =
      subst (All (λ a. net.is_loopback a ≡ true)) (ok-injective addrs found e) h
  parse_fields-loopback (field ∷ fields) addrs found h e =
      elim (Bool-cases (is_empty (trim_space field))) [
        | inl p ↦ parse_fields-loopback fields addrs found h (rw p at e)
        | inr p ↦ elim (Result-cases (parse_trusted_proxy (trim_space field))) [
          | inr (x, q) ↦ absurd (err-ok x found (rw q at (rw p at e)))
          | inl (a, q) ↦
              parse_fields-loopback fields (addrs ++ a ∷ []) found
                (All-append _ addrs (a ∷ []) h (parse_trusted_proxy-loopback _ a q, tt))
                (rw q at (rw p at e))
        ]
      ]

  -- A list of trusted proxies that is accepted holds addresses of this machine only.
  pub parse_trusted_proxies-loopback :
      (list : Text) (addrs : List net.Addr)
      → parse_trusted_proxies list ≡ ok addrs
      → All (λ a. net.is_loopback a ≡ true) addrs
  unfolding parse_trusted_proxies
  parse_trusted_proxies-loopback list addrs e =
      parse_fields-loopback (split b',' list) [] addrs tt e

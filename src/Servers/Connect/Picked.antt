-- ===== src/Servers/Connect/Picked.antt =====
-- internal/provider/utils: the connection that GetConnection picks.
use mathlib.Core.Path.{subst}
use gluetun.Prelude.{
  ℕ, zero, suc, ◌<◌, ◌≡◌, ◌≢◌, ◌↔◌, refl, sym, ap, ◌⊎◌, inl, inr, ltb, Bool, true, false, Option,
  none, some, List, [], ◌∷◌, String, str_eq, eq_iff, length, get_elem?, Member, arith, if_cases,
}
use gluetun.Firewall.{Connection}
use gluetun.Servers.{
  Address, Server, Selection, wireguard_type, tcp_protocol, Result, ok, err, panic, ◌>>=◌,
  no_connection_to_pick_from, target_ip_not_found,
}
use gluetun.Servers.Connect.{
  ConnectionDefaults, defined_port, get_port, all_connections, target_ip, has_ip,
  get_target_ip_connection, pick_random_connection, pick_at, pick_connection, get_connection,
}
use gluetun.Servers.Connect.Reachable.{Reachable, all_connections-Reachable}

-- The connection is one of those allowed, but for the target address, which it has where one is set.
abbrev pub From : (Connection → Type 0) → Option Address → Connection → Type 0
From Allowed none c = Allowed c
From Allowed (some target) c =
    (c.ip ≡ some target.text)
    × (base : Connection) × Allowed base
    × (c ≡ record base { ip = some target.text })

-- Where the pick fails: only for Wireguard, where no connection has the target address.
abbrev pub PickedFrom : (Connection → Type 0) → String → Option Address → Result Connection → Type 0
PickedFrom Allowed vpn target (ok c) = From Allowed target c
PickedFrom Allowed vpn none (err e) = ⊥
PickedFrom Allowed vpn (some target) (err e) =
    (vpn ≡ wireguard_type)
    × (e ≡ target_ip_not_found)
    × ((c : Connection) → Allowed c → c.ip ≢ some target.text)
PickedFrom Allowed vpn target panic = ⊥

abbrev In : List Connection → Connection → Type 0
In cs c = Member c cs

get_elem?-Member :
    {A : Type 0} (xs : List A) (i : ℕ)
    → i < length xs
    → (a : A) × (get_elem? xs i ≡ some a) × Member a xs
get_elem?-Member [] i h = absurd (omega (arith, h))
get_elem?-Member (x ∷ xs) zero h = (x, refl, inl refl)
get_elem?-Member (x ∷ xs) (suc i) h =
    let (a, e, m) = get_elem?-Member xs i (omega (arith, h)) in (a, e, inr m)

has_ip-eq : (c : Connection) (target : Address) → has_ip c target ≡ true ↔ (c.ip ≡ some target.text)
has_ip-eq c target = by_ip c.ip
  where
    by_ip :
        (ip : Option String)
        → (elim ip as (λ _. Bool) [ none ↦ false | some text ↦ str_eq target.text text ]) ≡ true
          ↔ (ip ≡ some target.text)
    by_ip none = ((λ h. absurd (ground (arith, h))), (λ h. absurd (ground (arith, h))))
    by_ip (some text) = (
      (λ h. ap some (sym ((eq_iff target.text text).0 h))),
      (λ h. (eq_iff target.text text).1 (ground (arith, h))),
    )

get_target_ip_connection-Picked :
    (target : Address) (cs : List Connection)
    → PickedFrom (In cs) wireguard_type (some target) (get_target_ip_connection cs target)
unfolding get_target_ip_connection
get_target_ip_connection-Picked target [] = (refl, refl, (λ c m. absurd m))
get_target_ip_connection-Picked target (c ∷ cs) =
    if_cases (PickedFrom (In (c ∷ cs)) wireguard_type (some target)) (has_ip c target) (ok c)
      (get_target_ip_connection cs target)
      (λ h.
        let e = (has_ip-eq c target).0 h in
        (e, c, inl refl, ap (λ (i : Option String). record c { ip = i }) e))
      (λ h.
        later (get_target_ip_connection cs target) (get_target_ip_connection-Picked target cs) h)
  where
    later :
        (r : Result Connection)
        → PickedFrom (In cs) wireguard_type (some target) r
        → has_ip c target ≡ false
        → PickedFrom (In (c ∷ cs)) wireguard_type (some target) r
    later (ok d) (a, base, m, e) h = (a, base, inr m, e)
    later (err e) (a, b, f) h = (
      a,
      b,
      (λ d m. elim m [
        | inl here ↦ (λ p.
            ground (arith, h, (has_ip-eq c target).1 (subst (λ x. x.ip ≡ some target.text) here p)))
        | inr later_on ↦ f d later_on
      ]),
    )
    later panic p h = p

module _ (random : ℕ → ℕ) (bounded : (n : ℕ) → 0 < n → random n < n) where
  picked_random :
      (cs : List Connection)
      → cs ≢ []
      → (c : Connection) × (pick_random_connection cs random ≡ ok c) × Member c cs
  unfolding pick_random_connection
  picked_random [] h = absurd (h refl)
  picked_random (x ∷ cs) h =
      let (c, e, m) =
        get_elem?-Member (x ∷ cs) (random (length (x ∷ cs)))
          (bounded (length (x ∷ cs)) (omega arith)) in
      (c, rw (pick_random_connection, e) refl, m)

  pick_at-Picked :
      (vpn : String) (target : Option Address) (cs : List Connection)
      → cs ≢ []
      → PickedFrom (In cs) vpn target (pick_at vpn target cs random)
  unfolding pick_at
  pick_at-Picked vpn none cs h =
      let (c, e, m) = picked_random cs h in
      subst (λ r. PickedFrom (In cs) vpn none (r >>= λ x. ok x)) (sym e) m
  pick_at-Picked vpn (some target) cs h =
      if_cases (PickedFrom (In cs) vpn (some target)) (str_eq vpn wireguard_type) _ _
        (λ w.
          subst (λ v. PickedFrom (In cs) v (some target) (get_target_ip_connection cs target))
            (sym ((eq_iff vpn wireguard_type).0 w)) (get_target_ip_connection-Picked target cs))
        (λ _.
          let (c, e, m) = picked_random cs h in
          subst
            (λ r.
              PickedFrom (In cs) vpn (some target)
                (r >>= λ (x : Connection). ok (record x { ip = some target.text })))
            (sym e) (refl, c, m, refl))

PickedFrom-map :
    (P Q : Connection → Type 0) (vpn : String) (target : Option Address) (r : Result Connection)
    → ((c : Connection) → P c ↔ Q c)
    → PickedFrom P vpn target r
    → PickedFrom Q vpn target r
PickedFrom-map P Q vpn none (ok c) h p = (h c).0 p
PickedFrom-map P Q vpn (some target) (ok c) h (i, base, p, e) = (i, base, (h base).0 p, e)
PickedFrom-map P Q vpn none (err e) h p = p
PickedFrom-map P Q vpn (some target) (err e) h (a, b, f) = (a, b, (λ c q. f c ((h c).1 q)))
PickedFrom-map P Q vpn none panic h p = p
PickedFrom-map P Q vpn (some target) panic h p = p

get_port-positive :
    (o : Selection) (defaults : ConnectionDefaults)
    → 0 < defaults.openvpn_tcp_port
    → 0 < defaults.openvpn_udp_port
    → 0 < defaults.wireguard_port
    → (port : ℕ) × (get_port o defaults ≡ ok port) × (0 < port)
unfolding get_port defined_port
get_port-positive o defaults a b c =
    if_cases (λ r. (port : ℕ) × (r ≡ ok port) × (0 < port)) (str_eq o.vpn wireguard_type) _ _
      (λ _.
        if_cases (λ r. (port : ℕ) × (r ≡ ok port) × (0 < port)) (ltb 0 o.wireguard.endpoint_port) _
          _ (λ p. (o.wireguard.endpoint_port, refl, ground (arith, p)))
          (λ _. (defaults.wireguard_port, ground (arith, c), c)))
      (λ _.
        if_cases (λ r. (port : ℕ) × (r ≡ ok port) × (0 < port)) (ltb 0 o.openvpn.custom_port) _ _
          (λ p. (o.openvpn.custom_port, refl, ground (arith, p)))
          (λ _.
            if_cases (λ r. (port : ℕ) × (r ≡ ok port) × (0 < port))
              (str_eq o.openvpn.protocol tcp_protocol) _ _
              (λ _. (defaults.openvpn_tcp_port, ground (arith, a), a))
              (λ _. (defaults.openvpn_udp_port, ground (arith, b), b))))

-- What GetConnection does with filtered servers: it has a port above zero, and fails with no
-- connection to pick from, where no server has an address that the host can reach, or picks.
abbrev pub IsPicked :
    Selection
    → ConnectionDefaults
    → Bool
    → List Server
    → Option Address
    → Result Connection
    → Type 0
IsPicked o defaults six servers target r =
    (port : ℕ) × (get_port o defaults ≡ ok port)
    × (0 < port)
    × (((r ≡ err no_connection_to_pick_from)
          × ((c : Connection) → ¬ Reachable o six port servers c))
        ⊎ PickedFrom (Reachable o six port servers) o.vpn target r)

-- Where the random choice stays below its bound, the VPN type is known and the default ports are
-- set, GetConnection does not panic. It picks a connection to an address, which the host can
-- reach, of one of the filtered servers, at a port above zero and with the target address where
-- one is set. It fails only where no address can be reached, or where for Wireguard no such
-- connection has the target address.
pub get_connection-IsPicked :
    (servers : List Server) (o : Selection) (defaults : ConnectionDefaults) (six : Bool)
    (random : ℕ → ℕ) (target : Option Address)
    → ((n : ℕ) → 0 < n → random n < n)
    → target_ip o ≡ ok target
    → 0 < defaults.openvpn_tcp_port
    → 0 < defaults.openvpn_udp_port
    → 0 < defaults.wireguard_port
    → IsPicked o defaults six servers target (get_connection (ok servers) o defaults six random)
unfolding get_connection
get_connection-IsPicked servers o defaults six random target bounded known a b c =
    let (port, e, positive) = get_port-positive o defaults a b c in
    (
      port,
      e,
      positive,
      subst
          (λ r.
            (((r >>= λ p. pick_connection (all_connections o six p servers) o random)
                ≡ err no_connection_to_pick_from)
              × ((d : Connection) → ¬ Reachable o six port servers d))
            ⊎ PickedFrom (Reachable o six port servers) o.vpn target
                (r >>= λ p. pick_connection (all_connections o six p servers) o random))
          (sym e)
          (picks (all_connections o six port servers)
            (all_connections-Reachable o six port servers)),
    )
  where
    picks :
        {port : ℕ} (cs : List Connection)
        → ((d : Connection) → Member d cs ↔ Reachable o six port servers d)
        → ((pick_connection cs o random ≡ err no_connection_to_pick_from)
            × ((d : Connection) → ¬ Reachable o six port servers d))
          ⊎ PickedFrom (Reachable o six port servers) o.vpn target (pick_connection cs o random)
    picks [] h = inl (refl, (λ d r. (h d).1 r))
    picks {port} (x ∷ cs) h = inr (
        subst
          (λ t.
            PickedFrom (Reachable o six port servers) o.vpn target
              (t >>= λ a. pick_at o.vpn a (x ∷ cs) random))
          (sym known)
          (PickedFrom-map (In (x ∷ cs)) (Reachable o six port servers) o.vpn target
            (pick_at o.vpn target (x ∷ cs) random) h
            (pick_at-Picked random bounded o.vpn target (x ∷ cs) (λ e. ground (arith, e)))))

-- ===== src/Firewall/Enable/Calls.antt =====
-- internal/firewall/enable.go: the calls that enabling the firewall makes, as a list.
use gluetun.Prelude.{
  ℕ, ◌≡◌, refl, ◌∙◌, ap, sym, inl, inr, Bool, false, Option, none, some, List, [], ◌∷◌, ◌++◌, map,
  String, if◌then◌else◌, Bool-cases,
}
use gluetun.Subnet.{Prefix}
use gluetun.Firewall.{
  FirewallImpl, Config, State, Connection, DefaultRoute, LocalNetwork, PortRedirection, M, ◌>>◌,
  done, Rule, Call, change, set_ipv4_all_policies, set_ipv6_all_policies, run_user_post_rules,
  accept_input_through_interface, accept_input_to_port, accept_input_to_subnet,
  accept_established_related_traffic, accept_ipv6_multicast_output, accept_output_from_ip_to_subnet,
  accept_output_through_interface, accept_output_traffic_to_vpn, redirect_port, impl_call,
  same_bool,
}
use gluetun.Firewall.Rules.{>>-assoc, call_rule}
use gluetun.Firewall.Ports.{has_interface, PortMap}
use gluetun.Firewall.Enable.{
  allow_vpn_loop, allow_vpn_ip, allow_local_networks, allow_subnet, allow_outbound_subnets,
  allow_local_input, allow_port, allow_input_ports, redirect_ports, enable_rules,
}

-- The interfaces of a list that are not in `seen`, each at its first place.
pub distinct : List String → List String → List String
distinct seen [] = []
distinct seen (i ∷ is) =
    if has_interface i seen then distinct seen is else i ∷ distinct (i ∷ seen) is

pub vpn_rules : Connection → List DefaultRoute → List Rule
unfolding distinct
vpn_rules connection routes = elim connection.ip [
  | none ↦ []
  | some ip ↦
      map (λ i. accept_output_traffic_to_vpn i connection)
        (distinct [] (map (λ r. r.net_interface) routes))
]

-- Each network, with the multicast rule of its interface where the interface is new.
pub network_rules : List String → List LocalNetwork → List Rule
network_rules seen [] = []
network_rules seen (n ∷ ns) =
    accept_output_from_ip_to_subnet n.interface_name n.ip n.ip_net
    ∷ (if has_interface n.interface_name seen
        then network_rules seen ns
        else accept_ipv6_multicast_output n.interface_name
          ∷ network_rules (n.interface_name ∷ seen) ns)

pub routes_of_family : Bool → List DefaultRoute → List DefaultRoute
routes_of_family is_6 [] = []
routes_of_family is_6 (r ∷ rs) =
    if same_bool is_6 r.is_6 then r ∷ routes_of_family is_6 rs else routes_of_family is_6 rs

pub subnet_rules : List DefaultRoute → List Prefix → List Rule
unfolding routes_of_family
subnet_rules routes [] = []
subnet_rules routes (p ∷ ps) =
    map (λ r. accept_output_from_ip_to_subnet r.net_interface r.assigned_ip p)
      (routes_of_family p.is_6 routes)
    ++ subnet_rules routes ps

pub port_rules : PortMap → List Rule
port_rules [] = []
port_rules ((port, intfs) ∷ ports) =
    map (λ i. accept_input_to_port i port) intfs ++ port_rules ports

-- The rules that an enabled firewall stands for, in the order in which they are appended.
pub enabled_rules : {W : Type 0} → Config W → List Rule
unfolding vpn_rules network_rules subnet_rules port_rules
enabled_rules c =
    accept_input_through_interface "lo"
    ∷ accept_output_through_interface "lo"
    ∷ accept_established_related_traffic
    ∷ (vpn_rules c.vpn_connection c.default_routes
        ++ (network_rules [] c.local_networks
            ++ (subnet_rules c.default_routes c.outbound_subnets
                ++ (map (λ n. accept_input_to_subnet n.interface_name n.ip_net) c.local_networks
                    ++ (port_rules c.allowed_input_ports
                        ++ map
                            (λ p. redirect_port p.interface_name p.source_port p.destination_port)
                            c.port_redirections)))))

pub enable_calls : {W : Type 0} → Config W → List Call
unfolding enabled_rules
enable_calls c =
    set_ipv4_all_policies "DROP"
    ∷ set_ipv6_all_policies "DROP"
    ∷ (map (λ r. change r false) (enabled_rules c) ++ run_user_post_rules c.custom_rules_path ∷ [])

module _ {W E : Type 0} (impl : FirewallImpl W E) where
  -- The calls one after the other, up to the first that fails.
  pub run_calls : List Call → M W E (Unit {0})
  run_calls [] = done
  run_calls (c ∷ cs) = impl_call impl c >> run_calls cs

  pub append_rules : List Rule → M W E (Unit {0})
  append_rules rs = run_calls (map (λ r. change r false) rs)

  append_rules-append :
      (xs ys : List Rule) → append_rules (xs ++ ys) ≡ (append_rules xs >> append_rules ys)
  unfolding append_rules run_calls
  append_rules-append [] ys = refl
  append_rules-append (x ∷ xs) ys =
      ap (λ k. impl_call impl (change x false) >> k) (append_rules-append xs ys)
      ∙ sym (>>-assoc (impl_call impl (change x false)) (append_rules xs) (append_rules ys))

  run_calls-append : (xs ys : List Call) → run_calls (xs ++ ys) ≡ (run_calls xs >> run_calls ys)
  unfolding run_calls
  run_calls-append [] ys = refl
  run_calls-append (x ∷ xs) ys =
      ap (λ k. impl_call impl x >> k) (run_calls-append xs ys)
      ∙ sym (>>-assoc (impl_call impl x) (run_calls xs) (run_calls ys))

  allow_vpn_loop-append_rules :
      (c : Connection) (seen : List String) (routes : List DefaultRoute)
      → allow_vpn_loop impl c seen routes
        ≡ append_rules (
            map
              (λ i. accept_output_traffic_to_vpn i c)
              (distinct seen (map (λ r. r.net_interface) routes)))
  unfolding allow_vpn_loop append_rules run_calls distinct
  allow_vpn_loop-append_rules c seen [] = refl
  allow_vpn_loop-append_rules c seen (r ∷ rs) =
      elim (Bool-cases (has_interface r.net_interface seen)) [
        | inl e ↦ rw e (allow_vpn_loop-append_rules c seen rs)
        | inr e ↦ rw e (
            ap
              (λ k.
                impl_call impl (change (accept_output_traffic_to_vpn r.net_interface c) false) >> k)
              (allow_vpn_loop-append_rules c (r.net_interface ∷ seen) rs))
      ]

  -- One more rule in front of a list of rules.
  then_rules : Rule → M W E (Unit {0}) → M W E (Unit {0})
  then_rules r k = impl_call impl (change r false) >> k

  allow_local_networks-append_rules :
      (seen : List String) (ns : List LocalNetwork)
      → allow_local_networks impl seen ns ≡ append_rules (network_rules seen ns)
  unfolding allow_local_networks append_rules run_calls network_rules then_rules
  allow_local_networks-append_rules seen [] = refl
  allow_local_networks-append_rules seen (n ∷ ns) =
      let out = accept_output_from_ip_to_subnet n.interface_name n.ip n.ip_net in
      elim (Bool-cases (has_interface n.interface_name seen)) [
        | inl e ↦ rw e (ap (then_rules out) (allow_local_networks-append_rules seen ns))
        | inr e ↦ rw e (
            ap (λ k. then_rules out (then_rules (accept_ipv6_multicast_output n.interface_name) k))
              (allow_local_networks-append_rules (n.interface_name ∷ seen) ns))
      ]

  allow_subnet-append_rules :
      (p : Prefix) (rs : List DefaultRoute)
      → allow_subnet impl p rs
        ≡ append_rules (
            map
              (λ r. accept_output_from_ip_to_subnet r.net_interface r.assigned_ip p)
              (routes_of_family p.is_6 rs))
  unfolding allow_subnet append_rules run_calls routes_of_family then_rules
  allow_subnet-append_rules p [] = refl
  allow_subnet-append_rules p (r ∷ rs) = elim (Bool-cases (same_bool p.is_6 r.is_6)) [
    | inl e ↦ simp e (
        ap (then_rules (accept_output_from_ip_to_subnet r.net_interface r.assigned_ip p))
          (allow_subnet-append_rules p rs))
    | inr e ↦ simp e (allow_subnet-append_rules p rs)
  ]

  allow_outbound_subnets-append_rules :
      (rs : List DefaultRoute) (ps : List Prefix)
      → allow_outbound_subnets impl rs ps ≡ append_rules (subnet_rules rs ps)
  unfolding allow_outbound_subnets subnet_rules append_rules run_calls
  allow_outbound_subnets-append_rules rs [] = refl
  allow_outbound_subnets-append_rules rs (p ∷ ps) =
      (λ i. allow_subnet-append_rules p rs i >> allow_outbound_subnets-append_rules rs ps i)
      ∙ sym (append_rules-append _ (subnet_rules rs ps))

  allow_local_input-append_rules :
      (ns : List LocalNetwork)
      → allow_local_input impl ns
        ≡ append_rules (map (λ n. accept_input_to_subnet n.interface_name n.ip_net) ns)
  unfolding allow_local_input append_rules run_calls then_rules
  allow_local_input-append_rules [] = refl
  allow_local_input-append_rules (n ∷ ns) =
      ap (then_rules (accept_input_to_subnet n.interface_name n.ip_net))
        (allow_local_input-append_rules ns)

  allow_port-append_rules :
      (port : ℕ) (is : List String)
      → allow_port impl port is ≡ append_rules (map (λ i. accept_input_to_port i port) is)
  unfolding allow_port append_rules run_calls then_rules
  allow_port-append_rules port [] = refl
  allow_port-append_rules port (i ∷ is) =
      ap (then_rules (accept_input_to_port i port)) (allow_port-append_rules port is)

  allow_input_ports-append_rules :
      (ports : PortMap) → allow_input_ports impl ports ≡ append_rules (port_rules ports)
  unfolding allow_input_ports port_rules append_rules run_calls
  allow_input_ports-append_rules [] = refl
  allow_input_ports-append_rules ((port, is) ∷ ports) =
      (λ i. allow_port-append_rules port is i >> allow_input_ports-append_rules ports i)
      ∙ sym (append_rules-append _ (port_rules ports))

  redirect_ports-append_rules :
      (ps : List PortRedirection)
      → redirect_ports impl ps
        ≡ append_rules
            (map (λ p. redirect_port p.interface_name p.source_port p.destination_port) ps)
  unfolding redirect_ports append_rules run_calls then_rules
  redirect_ports-append_rules [] = refl
  redirect_ports-append_rules (p ∷ ps) =
      ap (then_rules (redirect_port p.interface_name p.source_port p.destination_port))
        (redirect_ports-append_rules ps)

  allow_vpn_ip-append_rules :
      (c : Config W)
      → allow_vpn_ip impl c ≡ append_rules (vpn_rules c.vpn_connection c.default_routes)
  unfolding allow_vpn_ip vpn_rules append_rules run_calls
  allow_vpn_ip-append_rules c = simp_ip c.vpn_connection c.vpn_connection.ip
    where
      simp_ip :
          (d : Connection) (ip : Option String)
          → ◌≡◌ {A = M W E (Unit {0})}
              (elim ip [ none ↦ done | some _ ↦ allow_vpn_loop impl d [] c.default_routes ])
              (append_rules (elim ip [
                | none ↦ []
                | some _ ↦
                    map
                      (λ i. accept_output_traffic_to_vpn i d)
                      (distinct [] (map (λ r. r.net_interface) c.default_routes))
              ]))
      simp_ip d none = refl
      simp_ip d (some ip) = allow_vpn_loop-append_rules d [] c.default_routes

  chain :
      (xs ys : List Rule) (m k l : M W E (Unit {0}))
      → m ≡ append_rules xs
      → k ≡ (append_rules ys >> l)
      → (m >> k) ≡ (append_rules (xs ++ ys) >> l)
  chain xs ys m k l p q =
      (λ i. p i >> q i)
      ∙ sym (>>-assoc (append_rules xs) (append_rules ys) l)
      ∙ ap (λ h. h >> l) (sym (append_rules-append xs ys))

  chain_cons :
      (r : Rule) (ys : List Rule) (k l : M W E (Unit {0}))
      → k ≡ (append_rules ys >> l)
      → (impl_call impl (change r false) >> k) ≡ (append_rules (r ∷ ys) >> l)
  unfolding append_rules run_calls
  chain_cons r ys k l q =
      ap (λ h. impl_call impl (change r false) >> h) q
      ∙ sym (>>-assoc (impl_call impl (change r false)) (append_rules ys) l)

  -- Between the save and the restoration, enabling the firewall is the calls of the list, one
  -- after the other up to the first that fails: first the two policies, then each rule of the
  -- state once, the user's rules last.
  pub enable_rules-run_calls : (c : Config W) → enable_rules impl c ≡ run_calls (enable_calls c)
  unfolding enable_rules enable_calls enabled_rules append_rules run_calls
  enable_rules-run_calls c =
      let post = impl_call impl (run_user_post_rules c.custom_rules_path) >> done in
      let redirects =
        map
          (λ (p : PortRedirection). redirect_port p.interface_name p.source_port p.destination_port)
          c.port_redirections in
      let ports = port_rules c.allowed_input_ports in
      let inputs =
        map (λ (n : LocalNetwork). accept_input_to_subnet n.interface_name n.ip_net)
          c.local_networks in
      let subnets = subnet_rules c.default_routes c.outbound_subnets in
      let networks = network_rules [] c.local_networks in
      let vpn = vpn_rules c.vpn_connection c.default_routes in
      let state = vpn ++ (networks ++ (subnets ++ (inputs ++ (ports ++ redirects)))) in
      ap
        (λ k.
          impl_call impl (set_ipv4_all_policies "DROP")
          >> (impl_call impl (set_ipv6_all_policies "DROP") >> k))
        (chain_cons (accept_input_through_interface "lo")
            (accept_output_through_interface "lo" ∷ accept_established_related_traffic ∷ state) _
            post
            (chain_cons (accept_output_through_interface "lo")
              (accept_established_related_traffic ∷ state) _ post
              (chain_cons accept_established_related_traffic state _ post (
                chain vpn (networks ++ (subnets ++ (inputs ++ (ports ++ redirects)))) _ _ post
                  (allow_vpn_ip-append_rules c)
                  (chain networks (subnets ++ (inputs ++ (ports ++ redirects))) _ _ post
                    (allow_local_networks-append_rules [] c.local_networks)
                    (chain subnets (inputs ++ (ports ++ redirects)) _ _ post
                      (allow_outbound_subnets-append_rules c.default_routes c.outbound_subnets)
                      (chain inputs (ports ++ redirects) _ _ post
                        (allow_local_input-append_rules c.local_networks)
                        (chain ports redirects _ _ post
                          (allow_input_ports-append_rules c.allowed_input_ports)
                          (ap (λ h. h >> post)
                            (redirect_ports-append_rules c.port_redirections)))))))))
          ∙ sym (
              run_calls-append (map (λ r. change r false) (enabled_rules c))
                (run_user_post_rules c.custom_rules_path ∷ [])))

  run_calls-config : (cs : List Call) (s : State W) → (run_calls cs s).1.config ≡ s.config
  unfolding run_calls
  run_calls-config [] s = refl
  run_calls-config (c ∷ cs) s =
      call_rule (λ r. r.1.config ≡ s.config) impl c (λ _. run_calls cs) s
        (λ e. run_calls-config cs (record s { world = (impl.call c s.world).0 })) (λ x e. refl)

  pub enable_rules-config :
      (c : Config W) (s : State W) → (enable_rules impl c s).1.config ≡ s.config
  enable_rules-config c s = rw (enable_rules-run_calls c) (run_calls-config (enable_calls c) s)

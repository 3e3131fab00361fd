-- ===== src/Servers/Filter/Matches.antt =====
-- internal/storage/filter.go: the servers that the filter keeps, described without its code.
use mathlib.Core.Path.{subst}
use gluetun.Prelude.{
  ◌≡◌, ◌≢◌, ◌↔◌, refl, sym, ap, ◌∙◌, ◌⊎◌, inl, inr, Bool, true, false, not, ◌&&◌, List, [], ◌∷◌,
  String, str_eq, eq_iff, if◌then◌else◌, Member, arith, Bool-cases, if_cases,
}
use gluetun.Servers.{Server, Selection, wireguard_type, tcp_protocol, Result, ok, err, panic}
use gluetun.Servers.Filter.{
  none_of, filter_by_possibilities, none_valid, filter_any_by_possibilities, filter_by_protocol,
  same_number, filter_server, kept_servers, found_some, filter_servers,
}

-- No choice is made, or the value is one of the choices.
abbrev pub Chosen : {A : Type 0} → (A → A → Bool) → A → List A → Type 0
Chosen same value choices = (choices ≡ []) ⊎ ((p : _) × Member p choices × (same value p ≡ true))

none_of-false :
    {A : Type 0} (same : A → A → Bool) (value : A) (ps : List A)
    → none_of same value ps ≡ false
    → (p : A) × Member p ps × (same value p ≡ true)
unfolding none_of
none_of-false same value [] h = absurd (ground (arith, h))
none_of-false same value (q ∷ ps) h = elim (Bool-cases (same value q)) [
  | inl e ↦ (q, inl refl, e)
  | inr e ↦ let (p, m, f) = none_of-false same value ps (rw e at h) in (p, inr m, f)
]

none_of-Member :
    {A : Type 0} (same : A → A → Bool) (value : A) (ps : List A) (p : A)
    → Member p ps
    → same value p ≡ true
    → none_of same value ps ≡ false
unfolding none_of
none_of-Member same value [] p m e = absurd m
none_of-Member same value (q ∷ ps) p (inl here) e = rw (sym here, e) refl
none_of-Member same value (q ∷ ps) p (inr later) e =
    if_cases (λ b. b ≡ false) (same value q) false (none_of same value ps) (λ _. refl)
      (λ _. none_of-Member same value ps p later e)

filter_by_possibilities-Chosen :
    {A : Type 0} (same : A → A → Bool) (value : A) (ps : List A)
    → filter_by_possibilities same value ps ≡ false ↔ Chosen same value ps
unfolding filter_by_possibilities
filter_by_possibilities-Chosen same value [] = ((λ h. inl refl), (λ h. refl))
filter_by_possibilities-Chosen same value (q ∷ ps) = (
  (λ h. inr (none_of-false same value (q ∷ ps) h)),
  (λ c. elim c [
    | inl e ↦ absurd (ground (arith, e))
    | inr (p, m, e) ↦ none_of-Member same value (q ∷ ps) p m e
  ]),
)

-- No choice of categories is made, or one of the server's is among the choices.
abbrev pub AnyChosen : (String → String → Bool) → List String → List String → Type 0
AnyChosen same values choices =
    (choices ≡ []) ⊎ ((v : String) × Member v values × Chosen same v choices)

none_valid-Member :
    (same : String → String → Bool) (values : List String) (q : String) (ps : List String)
    (w : String)
    → Member w values
    → Chosen same w (q ∷ ps)
    → none_valid same values (q ∷ ps) ≡ false
unfolding none_valid
none_valid-Member same [] q ps w m c = absurd m
none_valid-Member same (v ∷ vs) q ps w (inl here) c =
    let kept : filter_by_possibilities same v (q ∷ ps) ≡ false =
      subst (λ x. filter_by_possibilities same x (q ∷ ps) ≡ false) here
        ((filter_by_possibilities-Chosen same w (q ∷ ps)).1 c) in
    if_cases (λ b. b ≡ false) (not (filter_by_possibilities same v (q ∷ ps))) false
      (none_valid same vs (q ∷ ps)) (λ _. refl) (λ no. absurd (ground (arith, kept, no)))
none_valid-Member same (v ∷ vs) q ps w (inr later) c =
    if_cases (λ b. b ≡ false) (not (filter_by_possibilities same v (q ∷ ps))) false
      (none_valid same vs (q ∷ ps)) (λ _. refl) (λ _. none_valid-Member same vs q ps w later c)

none_valid-AnyChosen :
    (same : String → String → Bool) (values : List String) (q : String) (ps : List String)
    → none_valid same values (q ∷ ps) ≡ false
      ↔ ((v : String) × Member v values × Chosen same v (q ∷ ps))
unfolding none_valid
none_valid-AnyChosen same [] q ps = ((λ h. absurd (ground (arith, h))), (λ m. absurd m.1))
none_valid-AnyChosen same (v ∷ vs) q ps = (
  (λ h. elim (Bool-cases (filter_by_possibilities same v (q ∷ ps))) [
    | inl e ↦ let (w, m, c) = (none_valid-AnyChosen same vs q ps).0 (rw e at h) in (w, inr m, c)
    | inr e ↦ (v, inl refl, (filter_by_possibilities-Chosen same v (q ∷ ps)).0 e)
  ]),
  (λ (w, m, c). none_valid-Member same (v ∷ vs) q ps w m c),
)

filter_any_by_possibilities-AnyChosen :
    (same : String → String → Bool) (values ps : List String)
    → filter_any_by_possibilities same values ps ≡ false ↔ AnyChosen same values ps
unfolding filter_any_by_possibilities
filter_any_by_possibilities-AnyChosen same values [] = ((λ h. inl refl), (λ h. refl))
filter_any_by_possibilities-AnyChosen same values (q ∷ ps) = (
  (λ h. inr ((none_valid-AnyChosen same values q ps).0 h)),
  (λ c. elim c [
    | inl e ↦ absurd (ground (arith, e))
    | inr m ↦ (none_valid-AnyChosen same values q ps).1 m
  ]),
)

-- A server offers the network protocol of the selection.
abbrev pub Offers : Server → Selection → Type 0
Offers server selection =
    (selection.openvpn.protocol ≡ tcp_protocol → server.tcp ≡ true)
    × (selection.openvpn.protocol ≢ tcp_protocol → server.udp ≡ true)

-- What the selection asks of a server, but for being a premium one.
pub record Matches (equal_fold : String → String → Bool) (server : Server) (selection : Selection)
    : Type 0 where
  pub vpn : server.vpn ≡ selection.vpn
  pub protocol : server.vpn ≢ wireguard_type → Offers server selection
  pub multi_hop : selection.multi_hop_only ≡ true → server.multi_hop ≡ true
  pub free : selection.free_only ≡ true → server.free ≡ true
  pub stream : selection.stream_only ≡ true → server.stream ≡ true
  pub owned : selection.owned_only ≡ true → server.owned ≡ true
  pub port_forward : selection.port_forward_only ≡ true → server.port_forward ≡ true
  pub secure_core : selection.secure_core_only ≡ true → server.secure_core ≡ true
  pub tor : selection.tor_only ≡ true → server.tor ≡ true
  pub country : Chosen equal_fold server.country selection.countries
  pub categories : AnyChosen equal_fold server.categories selection.categories
  pub region : Chosen equal_fold server.region selection.regions
  pub city : Chosen equal_fold server.city selection.cities
  pub isp : Chosen equal_fold server.isp selection.isps
  pub number : Chosen same_number server.number selection.numbers
  pub server_name : Chosen equal_fold server.server_name selection.names
  pub hostname : Chosen equal_fold server.hostname selection.hostnames

-- A chain of early returns, and what it says when no test of it holds.
first_true : List Bool → Bool
first_true [] = false
first_true (b ∷ []) = b
first_true (b ∷ c ∷ bs) = if b then true else first_true (c ∷ bs)

abbrev AllFalse : List Bool → Type 0
AllFalse [] = Unit
AllFalse (b ∷ bs) = (b ≡ false) × AllFalse bs

first_true-AllFalse : (bs : List Bool) → first_true bs ≡ false ↔ AllFalse bs
unfolding first_true
first_true-AllFalse [] = ((λ h. tt), (λ h. refl))
first_true-AllFalse (b ∷ []) = ((λ h. (h, tt)), (λ h. h.0))
first_true-AllFalse (true ∷ c ∷ bs) =
    ((λ h. absurd (ground (arith, h))), (λ h. absurd (ground (arith, h.0))))
first_true-AllFalse (false ∷ c ∷ bs) =
    ((λ h. (refl, (first_true-AllFalse (c ∷ bs)).0 h)), (λ h. (first_true-AllFalse (c ∷ bs)).1 h.1))

-- The tests of filterServer.
abbrev tests_of : (String → String → Bool) → Server → Selection → List Bool
tests_of fold s o =
    not (str_eq s.vpn o.vpn)
    ∷ (not (str_eq s.vpn wireguard_type) && filter_by_protocol o s.tcp s.udp)
    ∷ (o.multi_hop_only && not s.multi_hop)
    ∷ (o.free_only && not s.free)
    ∷ (o.stream_only && not s.stream)
    ∷ (o.owned_only && not s.owned)
    ∷ (o.port_forward_only && not s.port_forward)
    ∷ (o.secure_core_only && not s.secure_core)
    ∷ (o.tor_only && not s.tor)
    ∷ filter_by_possibilities fold s.country o.countries
    ∷ filter_any_by_possibilities fold s.categories o.categories
    ∷ filter_by_possibilities fold s.region o.regions
    ∷ filter_by_possibilities fold s.city o.cities
    ∷ filter_by_possibilities fold s.isp o.isps
    ∷ filter_by_possibilities same_number s.number o.numbers
    ∷ filter_by_possibilities fold s.server_name o.names
    ∷ filter_by_possibilities fold s.hostname o.hostnames
    ∷ []

filter_server-tests_of :
    (fold : String → String → Bool) (s : Server) (o : Selection)
    → filter_server fold s o ≡ first_true (tests_of fold s o)
unfolding filter_server first_true
filter_server-tests_of fold s o = refl

only_lem : (only has : Bool) → (only && not has) ≡ false ↔ (only ≡ true → has ≡ true)
only_lem true true = ((λ h o. refl), (λ h. refl))
only_lem true false = ((λ h o. ground (arith, h)), (λ h. ground (arith, h refl)))
only_lem false has = ((λ h o. ground (arith, o)), (λ h. refl))

filter_by_protocol-Offers :
    (s : Server) (o : Selection)
    → s.vpn ≡ o.vpn
    → (not (str_eq s.vpn wireguard_type) && filter_by_protocol o s.tcp s.udp) ≡ false
      ↔ (s.vpn ≢ wireguard_type → Offers s o)
unfolding filter_by_protocol
filter_by_protocol-Offers s o same =
    let is_wireguard = eq_iff s.vpn wireguard_type in
    let wants_tcp = eq_iff o.openvpn.protocol tcp_protocol in
    let same_test = eq_iff o.vpn wireguard_type in
    (
      (λ h n. (
        (λ t. ground (
          arith,
          h,
          eq_iff s.vpn wireguard_type,
          eq_iff o.vpn wireguard_type,
          same,
          eq_iff o.openvpn.protocol tcp_protocol,
          n,
          t,
        )),
        (λ t. ground (
          arith,
          h,
          eq_iff s.vpn wireguard_type,
          eq_iff o.vpn wireguard_type,
          same,
          eq_iff o.openvpn.protocol tcp_protocol,
          n,
          t,
        )),
      )),
      (λ h. elim (Bool-cases (str_eq s.vpn wireguard_type)) [
        | inl e ↦ rw e refl
        | inr e ↦
            let offers = h (λ p. ground (arith, e, is_wireguard.1 p)) in
            let other : str_eq o.vpn wireguard_type ≡ false = rw same at e in
            elim (Bool-cases (str_eq o.openvpn.protocol tcp_protocol)) [
              | inl t ↦ ground (arith, e, other, t, offers.0 (wants_tcp.0 t))
              | inr t ↦
                  ground (arith, e, other, t, offers.1 (λ p. ground (arith, t, wants_tcp.1 p)))
            ]
      ]),
    )

-- The filter keeps exactly the servers that match the selection.
filter_server-Matches :
    (fold : String → String → Bool) (s : Server) (o : Selection)
    → filter_server fold s o ≡ false ↔ Matches fold s o
filter_server-Matches fold s o = (
  (λ h.
      let (a, (b, (c, (d, (e, (f, (g, (i, (j, (k, (l, (m, (n, (p, (q, (r, (t, _))))))))))))))))) =
        (first_true-AllFalse (tests_of fold s o)).0 (sym (filter_server-tests_of fold s o) ∙ h) in
      let same : s.vpn ≡ o.vpn = (eq_iff s.vpn o.vpn).0 (ground (arith, a)) in
      record {
        vpn = same;
        protocol = (filter_by_protocol-Offers s o same).0 b;
        multi_hop = (only_lem o.multi_hop_only s.multi_hop).0 c;
        free = (only_lem o.free_only s.free).0 d;
        stream = (only_lem o.stream_only s.stream).0 e;
        owned = (only_lem o.owned_only s.owned).0 f;
        port_forward = (only_lem o.port_forward_only s.port_forward).0 g;
        secure_core = (only_lem o.secure_core_only s.secure_core).0 i;
        tor = (only_lem o.tor_only s.tor).0 j;
        country = (filter_by_possibilities-Chosen fold s.country o.countries).0 k;
        categories = (filter_any_by_possibilities-AnyChosen fold s.categories o.categories).0 l;
        region = (filter_by_possibilities-Chosen fold s.region o.regions).0 m;
        city = (filter_by_possibilities-Chosen fold s.city o.cities).0 n;
        isp = (filter_by_possibilities-Chosen fold s.isp o.isps).0 p;
        number = (filter_by_possibilities-Chosen same_number s.number o.numbers).0 q;
        server_name = (filter_by_possibilities-Chosen fold s.server_name o.names).0 r;
        hostname = (filter_by_possibilities-Chosen fold s.hostname o.hostnames).0 t;
      }),
  (λ h.
      filter_server-tests_of fold s o
      ∙ (first_true-AllFalse (tests_of fold s o)).1 (
        ground (arith, (eq_iff s.vpn o.vpn).1 h.vpn),
        (
          (filter_by_protocol-Offers s o h.vpn).1 h.protocol,
          (
            (only_lem o.multi_hop_only s.multi_hop).1 h.multi_hop,
            (
              (only_lem o.free_only s.free).1 h.free,
              (
                (only_lem o.stream_only s.stream).1 h.stream,
                (
                  (only_lem o.owned_only s.owned).1 h.owned,
                  (
                    (only_lem o.port_forward_only s.port_forward).1 h.port_forward,
                    (
                      (only_lem o.secure_core_only s.secure_core).1 h.secure_core,
                      (
                        (only_lem o.tor_only s.tor).1 h.tor,
                        (
                          (filter_by_possibilities-Chosen fold s.country o.countries).1 h.country,
                          (
                            (filter_any_by_possibilities-AnyChosen fold s.categories o.categories).1
                                h.categories,
                            (
                              (filter_by_possibilities-Chosen fold s.region o.regions).1 h.region,
                              (
                                (filter_by_possibilities-Chosen fold s.city o.cities).1 h.city,
                                (
                                  (filter_by_possibilities-Chosen fold s.isp o.isps).1 h.isp,
                                  (
                                    (filter_by_possibilities-Chosen same_number s.number
                                          o.numbers).1
                                        h.number,
                                    (
                                      (filter_by_possibilities-Chosen fold s.server_name o.names).1
                                          h.server_name,
                                      (
                                        (filter_by_possibilities-Chosen fold s.hostname
                                              o.hostnames).1
                                            h.hostname,
                                        tt,
                                      ),
                                    ),
                                  ),
                                ),
                              ),
                            ),
                          ),
                        ),
                      ),
                    ),
                  ),
                ),
              ),
            ),
          ),
        ),
      )),
)

Member-kept_cons :
    (fold : String → String → Bool) (o : Selection) (s x : Server) (all kept : List Server)
    → (Member s kept → Member s all × (filter_server fold s o ≡ false))
    → filter_server fold x o ≡ false
    → Member s (x ∷ kept)
    → Member s (x ∷ all) × (filter_server fold s o ≡ false)
Member-kept_cons fold o s x all kept rest passes (inl here) =
    (inl here, subst (λ y. filter_server fold y o ≡ false) (sym here) passes)
Member-kept_cons fold o s x all kept rest passes (inr later) = let (m, b) = rest later in (inr m, b)

kept_servers-Member :
    (fold : String → String → Bool) (o : Selection) (s : Server) (all : List Server)
    → Member s (kept_servers fold o all) ↔ (Member s all × (filter_server fold s o ≡ false))
unfolding kept_servers
kept_servers-Member fold o s [] = ((λ m. absurd m), (λ m. absurd m.0))
kept_servers-Member fold o s (x ∷ all) = elim (Bool-cases (filter_server fold x o)) [
  | inl out ↦
      let rest = kept_servers-Member fold o s all in
      (
        (λ m. let (a, b) = rest.0 (rw out at m) in (inr a, b)),
        (λ (m, b). elim m [
          | inl here ↦ absurd (ground (arith, out, b, rw here at b))
          | inr later ↦ rw out (rest.1 (later, b))
        ]),
      )
  | inr kept ↦
      let rest = kept_servers-Member fold o s all in
      (
        (λ m. Member-kept_cons fold o s x all (kept_servers fold o all) rest.0 kept (rw kept at m)),
        (λ (m, b). elim m [
          | inl here ↦ rw kept (inl here)
          | inr later ↦ rw kept (inr (rest.1 (later, b)))
        ]),
      )
]

-- What FilterServers returns for a provider other than the custom one: the servers that match the
-- selection, premium servers aside, and no other ones, or the error where none matches.
abbrev pub IsFiltered :
    (String → String → Bool) → List Server → Selection → Result (List Server) → Type 0
IsFiltered fold all o (ok servers) =
    (servers ≢ []) × ((s : Server) → Member s servers ↔ (Member s all × Matches fold s o))
IsFiltered fold all o (err e) = (s : Server) → Member s all → ¬ Matches fold s o
IsFiltered fold all o panic = ⊥

found_some-IsFiltered :
    (fold : String → String → Bool) (all kept : List Server) (o : Selection)
    → ((s : Server) → Member s kept ↔ (Member s all × Matches fold s o))
    → IsFiltered fold all o (found_some kept)
found_some-IsFiltered fold all [] o h = λ s m matches. (h s).1 (m, matches)
found_some-IsFiltered fold all (x ∷ kept) o h = ((λ e. ground (arith, e)), h)

-- FilterServers gives the same, whatever the selection says about premium servers.
abbrev pub IgnoresPremiumOnly : (String → String → Bool) → String → List Server → Selection → Type 0
IgnoresPremiumOnly fold provider all o =
    (only : Bool)
    → filter_servers fold provider all (record o { premium_only = only })
      ≡ filter_servers fold provider all o

kept_servers-premium_only :
    (fold : String → String → Bool) (o : Selection) (only : Bool) (all : List Server)
    → kept_servers fold (record o { premium_only = only }) all ≡ kept_servers fold o all
unfolding kept_servers
kept_servers-premium_only fold o only [] = refl
kept_servers-premium_only fold o only (s ∷ all) =
    ap (λ rest. if filter_server fold s o then rest else s ∷ rest)
      (kept_servers-premium_only fold o only all)

-- For a provider other than the custom one, FilterServers returns exactly the servers that match
-- the selection in all that it asks but premium servers, and fails only where no server does; and
-- its result does not depend on whether the selection asks for premium servers only.
pub filter_servers-IsFiltered :
    (fold : String → String → Bool) (provider : String) (all : List Server) (o : Selection)
    → provider ≢ "custom"
    → IsFiltered fold all o (filter_servers fold provider all o)
      × IgnoresPremiumOnly fold provider all o
unfolding filter_servers
filter_servers-IsFiltered fold provider all o known = (
  if_cases (IsFiltered fold all o) (str_eq provider "custom") (ok [])
      (found_some (kept_servers fold o all))
      (λ custom. absurd (known ((eq_iff provider "custom").0 custom)))
      (λ _. found_some-IsFiltered fold all (kept_servers fold o all) o (λ s. (
        (λ m.
            let (a, b) = (kept_servers-Member fold o s all).0 m in
            (a, (filter_server-Matches fold s o).0 b)),
        (λ (a, b). (kept_servers-Member fold o s all).1 (a, (filter_server-Matches fold s o).1 b)),
      ))),
  (λ only.
      ap (λ kept. if str_eq provider "custom" then ok [] else found_some kept)
        (kept_servers-premium_only fold o only all)),
)

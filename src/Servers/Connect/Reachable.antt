-- ===== src/Servers/Connect/Reachable.antt =====
-- internal/provider/utils/connection.go: the connections from which GetConnection picks.
use gluetun.Prelude.{
  ℕ, ◌≡◌, ◌↔◌, refl, sym, ap, inl, inr, Bool, true, not, ◌&&◌, List, [], ◌∷◌, Member, Member-append,
  arith, if_cases,
}
use gluetun.Firewall.{Connection}
use gluetun.Servers.{Address, Server, Selection}
use gluetun.Servers.Connect.{connection_to, server_connections, all_connections}

-- A connection to one of the servers at one of its addresses, which the host can reach.
abbrev pub Reachable : Selection → Bool → ℕ → List Server → Connection → Type 0
Reachable selection ipv6_supported port servers c =
    (s : Server) × (ip : Address) × Member s servers
    × Member ip s.ips
    × (ip.is_6 ≡ true → ipv6_supported ≡ true)
    × (c ≡ connection_to selection port s ip)

server_connections-Member :
    (o : Selection) (six : Bool) (port : ℕ) (s : Server) (ips : List Address) (c : Connection)
    → Member c (server_connections o six port s ips)
    → (ip : Address) × Member ip ips
      × (ip.is_6 ≡ true → six ≡ true)
      × (c ≡ connection_to o port s ip)
unfolding server_connections
server_connections-Member o six port s [] c = λ m. absurd m
server_connections-Member o six port s (ip ∷ ips) c =
    let rest = server_connections-Member o six port s ips c in
    if_cases
      (λ cs.
        Member c cs
        → (a : Address) × Member a (ip ∷ ips)
          × (a.is_6 ≡ true → six ≡ true)
          × (c ≡ connection_to o port s a))
      (not six && ip.is_6) _ _ (λ _ m. let (a, n, b, e) = rest m in (a, inr n, b, e))
      (λ keep m. elim m [
        | inl here ↦ (ip, inl refl, (λ h. ground (arith, keep, h)), here)
        | inr later ↦ let (a, n, b, e) = rest later in (a, inr n, b, e)
      ])

Member-server_connections :
    (o : Selection) (six : Bool) (port : ℕ) (s : Server) (ips : List Address) (ip : Address)
    → Member ip ips
    → (ip.is_6 ≡ true → six ≡ true)
    → Member (connection_to o port s ip) (server_connections o six port s ips)
unfolding server_connections
Member-server_connections o six port s [] ip m b = absurd m
Member-server_connections o six port s (x ∷ ips) ip (inl here) b =
    if_cases (Member (connection_to o port s ip)) (not six && x.is_6) _ _
      (λ skip.
        absurd
          (let six_x : ip.is_6 ≡ x.is_6 = ap (λ a. a.is_6) here in ground (arith, skip, six_x, b)))
      (λ _. inl (ap (connection_to o port s) here))
Member-server_connections o six port s (x ∷ ips) ip (inr later) b =
    if_cases (Member (connection_to o port s ip)) (not six && x.is_6) _ _
      (λ _. Member-server_connections o six port s ips ip later b)
      (λ _. inr (Member-server_connections o six port s ips ip later b))

pub all_connections-Reachable :
    (o : Selection) (six : Bool) (port : ℕ) (servers : List Server) (c : Connection)
    → Member c (all_connections o six port servers) ↔ Reachable o six port servers c
unfolding all_connections
all_connections-Reachable o six port [] c = ((λ m. absurd m), (λ r. absurd r.2))
all_connections-Reachable o six port (s ∷ ss) c =
    let rest = all_connections-Reachable o six port ss c in
    let parts =
      Member-append c (server_connections o six port s s.ips) (all_connections o six port ss) in
    (
      (λ m. elim (parts.0 m) [
        | inl n ↦
            let (ip, a, b, e) = server_connections-Member o six port s s.ips c n in
            (s, ip, inl refl, a, b, e)
        | inr n ↦ let (t, ip, a, b, d, e) = rest.0 n in (t, ip, inr a, b, d, e)
      ]),
      (λ (t, ip, a, b, d, e). parts.1 (elim a [
        | inl here ↦ inl (rw (sym here, e) (Member-server_connections o six port t t.ips ip b d))
        | inr later ↦ inr (rest.1 (t, ip, later, b, d, e))
      ])),
    )

-- ===== src/Servers/Merge.antt =====
-- internal/storage/merge.go and Server.Key of internal/models/server.go. A map is an association
-- list, and its iteration may be in any order, since what it gives is sorted.
pub mod Kept
pub mod Merged
use gluetun.Prelude.{
  ℕ, ltb, Bool, true, false, not, ◌&&◌, Option, none, some, List, [], ◌∷◌, ◌++◌, String, str_eq,
  str_append, if◌then◌else◌,
}
use gluetun.Servers.{Server}

-- `strings.Join(protocols, "-")`
pub protocols_of : Bool → Bool → String
protocols_of true true = "tcp-udp"
protocols_of true false = "tcp"
protocols_of false true = "udp"
protocols_of false false = ""

pub key_of : Server → String
unfolding protocols_of
key_of s =
    str_append s.vpn
      (str_append "-" (str_append (protocols_of s.tcp s.udp) (str_append "-" s.hostname)))

-- models.Servers, without its format version
pub record ServerList : Type 0 where
  pub timestamp : ℕ
  pub servers : List Server

abbrev pub KeyMap : Type 0
KeyMap = List (String × Server)

pub put : String → Server → KeyMap → KeyMap
put k s [] = (k, s) ∷ []
put k s ((j, t) ∷ m) = let rest = put k s m in if str_eq j k then (k, s) ∷ m else (j, t) ∷ rest

pub lookup : String → KeyMap → Option Server
lookup k [] = none
lookup k ((j, t) ∷ m) = let rest = lookup k m in if str_eq j k then some t else rest

pub delete : String → KeyMap → KeyMap
delete k [] = []
delete k ((j, t) ∷ m) = let rest = delete k m in if str_eq j k then rest else (j, t) ∷ rest

pub values : KeyMap → List Server
values [] = []
values ((j, t) ∷ m) = t ∷ values m

-- The loop over the persisted servers
pub kept_map : List Server → KeyMap → KeyMap
unfolding put key_of
kept_map [] m = m
kept_map (p ∷ ps) m = kept_map ps (if p.keep then put (key_of p) p m else m)

-- The loop over the hard-coded servers: the servers appended, and the map that is left.
abbrev pub prepend : Server → List Server × KeyMap → List Server × KeyMap
prepend s (out, m) = (s ∷ out, m)

pub merge_loop : List Server → KeyMap → List Server × KeyMap
unfolding lookup delete key_of
merge_loop [] m = ([], m)
merge_loop (h ∷ hs) m = elim (lookup (key_of h) m) [
  | some p ↦ prepend p (merge_loop hs (delete (key_of h) m))
  | none ↦ prepend h (merge_loop hs m)
]

-- mergeProviderServers. `sort` is sort.Sort by the order of SortableServers, `now` the Unix time,
-- and no time is before 1970.
unfoldable pub merge_provider_servers :
    (List Server → List Server) → ℕ → ServerList → ServerList → ServerList
unfolding kept_map merge_loop values
merge_provider_servers sort now hardcoded persisted =
    let (out, rest) = merge_loop hardcoded.servers (kept_map persisted.servers []) in
    let merged : ServerList = record hardcoded { servers = sort (out ++ values rest) } in
    if not (ltb now persisted.timestamp) && ltb hardcoded.timestamp persisted.timestamp
    then persisted
    else merged

-- ===== src/Lib.antt =====
-- Verification of gluetun, a VPN client that runs in a container.
--
-- The development follows the program's parts. The firewall (internal/firewall) keeps a state of
-- what is to be allowed, and asks an implementation (iptables) to append and delete rules; it
-- takes the differences of two lists of subnets from internal/subnet. The user's commands are
-- split into words by internal/command. The MTU of a tunnel is found by internal/pmtud. The
-- server to connect to is chosen by internal/storage and internal/provider/utils, and the ports
-- to forward are asked of its gateway by internal/natpmp and opened in the firewall by
-- internal/portforward. What is known of the public address is gathered by internal/publicip,
-- and internal/healthcheck tells whether the connection works.
--
-- - Prelude: the names of the libraries that the files share, Boolean tests and list operations
--   on native numbers.
-- - Bytes: numbers of 16 and 32 bits as bytes in network order.
-- - Command: internal/command/split.go. A command is a list of code points, and an index into it
--   is a suffix. The outer loop of split runs on fuel, one unit a round.
-- - Subnet: internal/subnet/subsets.go. A prefix is its text and its family.
-- - Firewall: internal/firewall. Config is a record and each method a function on the pair of
--   the receiver and the state of the system, with `ok`, `err` and `panic` as results (Firewall,
--   Ports, Redirect, Subnets, Vpn, Enable). The implementation is a record of functions, a
--   parameter; Kernel states what SaveAndRestore promises and fills it with the one of
--   internal/firewall/iptables, Ports/Synced keeps a ledger of the calls that any implementation
--   gets, and Rules has the proof rules of the methods.
-- - Iptables: internal/firewall/iptables. The instruction, the rules of a listed chain and their
--   comparison (Iptables), the parser of an instruction (Parse, parse.go), the parser of a
--   listed chain (Listing, list.go), the deletion of the rule that equals an instruction
--   (Delete, delete.go), and the runs of instructions with what is saved before and restored on
--   an error (Run; atomic.go, iptables.go, ip6tables.go and iptablesmix.go). The functions of
--   strings, strconv and netip are parameters of the parser, and the iptables program, with the
--   parsing of what it lists, a parameter of the deletion. The loops of the parsers run on fuel,
--   a unit a field.
-- - Pmtud: internal/pmtud. Mtus has the MTUs of one round (test/mtu.go), where the float64
--   arithmetic of the language is a parameter, with the bounds of IEEE 754 on its errors
--   (IsFloat64); Tcp has the rounds of the search and the range that it starts from
--   (tcp/multi.go), Tcp/Mss the choice among the servers (tcp/mss.go), Tcp/Header the making and
--   parsing of headers (tcp/tcpheader.go), Icmp the search with echo requests and the collection
--   of their replies (icmp/multi.go), where the network is a parameter. Both searches run on
--   fuel, one unit a round, and the range gets shorter in every round. What a round of
--   concurrent tests leaves is which of them succeeded.
-- - Servers: the settings of a selection and the servers that it is made from. Filter has
--   FilterServers (internal/storage/filter.go), Connect GetConnection with its picks
--   (internal/provider/utils), Merge the merge of the hard-coded and the persisted servers
--   (internal/storage/merge.go). The case-insensitive comparison, the random source and the sort
--   are parameters, and a map is an association list.
-- - Natpmp: internal/natpmp. The network is a parameter, a function from a round, its timeout
--   and the request to what is received; the loop of the retries goes down on the number of
--   rounds left. Mapping has the calls for a port mapping and for the address, Attempts the
--   report of the failed rounds.
-- - Loopstate: internal/loopstate. ApplyStatus is a function of the existing and the requested
--   status and the reply of the loop, and a run is a sequence of such calls and of statuses that
--   the loop sets; what it gives are the signals that the loop gets.
-- - Portforward: internal/portforward/service. The service is a record over the state of the
--   firewall, which it asks for its ports through the record of functions of interfaces.go;
--   Allower states the contract of that record and fills it with the methods of Firewall. Closed
--   is about the cleanup, Opened about new ports, Pairs about the map between the ports, Cycle
--   about sequences of calls, Validate about the settings. Routing, the provider's forwarder,
--   the sort, the port file and the user's commands are parameters, and a map is an association
--   list in the order of its iteration.
-- - Publicip: internal/publicip/api/resilient.go. Distance has the edit distance of two strings,
--   Popular the choice of the most popular result, Fetch the queries and the bans. A string is
--   the list of its bytes, normalize a parameter, the column of the edit distance is gone
--   through as a list, and the goroutines of the queries are a function from a fetcher to its
--   reply.
-- - Healthcheck: internal/healthcheck/checker.go. The probes of the network are a record of
--   functions over its state, and a parameter; Retries is about the tries of a check, Fallback
--   about the step from ICMP to DNS, over the states that are reached from a start.
--
-- The mutex of Config is held for the whole of each method, so the methods are taken one at a
-- time. Messages and contexts are left out, and an error is passed on without its wrapping. Not
-- modelled are the updates of the servers of each provider, the loop of the port forwarding, the
-- services that the loops run, the timers of the health check, the settings, and the code that
-- only calls the system.
pub mod Prelude
pub mod Bytes
pub mod Command
pub mod Firewall
pub mod Healthcheck
pub mod Iptables
pub mod Loopstate
pub mod Natpmp
pub mod Pmtud
pub mod Portforward
pub mod Publicip
pub mod Servers
pub mod Subnet

-- ===== src/Lib.antt =====
-- Models and proofs about the nexodus agent and services (github.com/nexodus-io/nexodus).
--
-- The agent (internal/nexodus) keeps a cache of the devices of its VPC. buildPeersConfig walks
-- the cache; for each peer rebuildPeerConfig chooses a method from the table wgPeerMethods, and
-- the configuration that the method builds goes to the WireGuard configuration. Peers that are
-- reached through a DERP relay get a loopback address from DerpIpMapping.
--
-- - Prelude: tests, lists, texts, and Go maps as association lists (any order of iteration is
--   some list).
-- - DerpMapping: internal/nexodus/wg_peers_derp_mapping.go, method by method.
-- - Peering: the records of internal/nexodus/nexodus.go; Peering/Methods the table and the
--   builders of wg_peers.go, Peering/Health peeringFailed, peerIsHealthy and peeringReset,
--   Peering/Decision shouldResetPeering and rebuildPeerConfig, Peering/Relay the search for a
--   relay and the switch of the DERP map (with derp.go), Peering/Build buildPeersConfig.
--
-- Peering/Relay/Published has the metadata and the end points that a relay publishes
-- (internal/nexodus/join.go, nexodus.go), against what the agents read.
--
-- The packet filter (internal/nexodus/policy_linux.go) is in Firewall: commands and table
-- operations in Firewall.antt, the permits of one rule in Permit, the loops over a security
-- group in Group, the network router in Router, the range tests of internal/util/ip_utils.go
-- with the checks of internal/handlers/security_group.go in Ranges. Plan lists the commands
-- that a group should become, and Runs says what carrying out a list means; PermitPlan,
-- GroupPlan, RouterPlan, Kinds, Tables and Valid hold the proofs. nft is a parameter that
-- answers each command from the commands before it, with no assumption on it. The parsers of
-- addresses and networks are a parameter (Ranges.Net).
--
-- The rules of the userspace proxy (internal/nexodus/proxyrule.go) are in Proxy: the records,
-- the parser and the printer in Proxy.antt; HostPort, RoundTrip and Parsed hold the proofs.
-- Prelude.Pieces, Prelude.Cut and Prelude.Numerals model what the code uses of strings and
-- strconv, on native texts. Proxy.Table is the table of proxies of
-- internal/nexodus/userspace_proxy.go with the control commands of
-- internal/nexodus/ctlserver.go; its children are named for what they prove.
--
-- The caches of internal/util/cache are in Caches: the map, the cache with expiry and the
-- memoizing cache in Caches.antt, with the time as an input; Expiry and Memoized hold the
-- proofs.
--
-- The informer of internal/client/custom_informer.go is in Informer: a call of the handler is a
-- function that may panic. Steps is about which calls keep the bookmark in order, Follow about
-- the items, Failure and Undecoded about errors. A run of the watch loop (custom_watch.go) is
-- the list of the calls that it makes.
--
-- The fetch manager of internal/handlers/fetchmgr is in Fetch: the ring that watchers share and
-- the loop that reads it, fills it or asks the database. Scan and Ring hold the proofs about
-- the ring, Rule a rule for all that Fetch can return, Answered, Complete and Stocked its uses,
-- Tokens the tokens that hideDeviceBearerToken leaves (internal/handlers/device.go).
--
-- The event streams of internal/handlers/events.go are in Watch: a visit of a watch is a
-- function of its state and of what the environment decides, pass is one walk over the watches
-- of a request. Client is about what a client has after the events (a client of the
-- specification, without the guards of the Informer), Wakeup about parking and signals, Broken
-- about a watch that fails and one that is resumed. The rows are those that Fetch returns.
--
-- The signal bus of internal/signalbus, which wakes the event streams, is in SignalBus: the
-- arrays under the slices are part of the state. Closing is about close, Notifying about a
-- Notify while others close, Lost about a subscription that it misses.
--
-- The tracker of connected agents, through which the event streams run, is in Tracker
-- (internal/handlers/online_tracker.go): Counts is about the counts of connections, Runs about
-- how often a request is run.
--
-- The probes of peers are in Keepalive (internal/nexodus/keepalive.go): Checksum shows cksum to
-- be the Internet checksum, Echo is about requests, replies and the loop of ping.
--
-- The reconciliation of the agent with the service is in Reconcile (reconcileDeviceCache in
-- internal/nexodus/nexodus.go, handlePeerDelete in wg.go, DeployWireguardConfig in
-- wg_deploy.go). The file itself has the loop over the devices, Deploy what follows it and the
-- whole. Rounds, Synced and Devices are about the loop, Total about its panics, Deletion about
-- handlePeerDelete, Keyed and Match about the cache against the list of the service, Whole and
-- Failure about a whole reconciliation, Renewed about devices that are registered anew. Groups
-- is about the security group (reconcileSecurityGroups), with the type of a list of rules as a
-- parameter.
--
-- The authorization of requests with bearer tokens is in Authz
-- (internal/handlers/envoy_authz.go): Claimed is about the token that a request goes on with,
-- Access about what its claims allow (internal/handlers/device.go). The database, the signing
-- of tokens and the sessions are a record of functions.
--
-- Not modelled: the start-up and the timers of the agent, routes, interfaces and the DERP
-- transport (calls of the operating system and of libraries), the packet filters of other
-- systems, the generated client, the commands, the database schema and the queries of the
-- handlers of the service, logins and sessions (third-party libraries), and what only formats
-- or stores state.
--
-- Go code that mutates a record returns the new record; an error is none, false or a
-- constructor of a result type; a panic is none. Times are nanoseconds, the zero time is 0. A
-- nil slice and an empty one are one list. Logging is not modelled. What the network library
-- and the host answer are fields of a parameter (Peering.Env). Loops are recursion on their
-- list or on the rounds left, so no fuel is needed where none is named.
pub mod Prelude
pub mod DerpMapping
pub mod Peering
pub mod Firewall
pub mod Proxy
pub mod Caches
pub mod Informer
pub mod Fetch
pub mod Watch
pub mod SignalBus
pub mod Tracker
pub mod Keepalive
pub mod Reconcile
pub mod Authz

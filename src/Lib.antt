-- ===== src/Lib.antt =====
-- Verification of two programs of this repository: netcfgd, which manages the proxy of a balenaOS
-- host, and the Sparkplug to SQL historian.
--
-- netcfgd (balena/network-config). The watchdog runs a pass every minute: it reads the host's proxy
-- through the balena Supervisor, decides by the configured mode what the proxy should be, and has
-- the Supervisor change it where it differs. A change restarts every container on the device, the
-- watchdog's own included, so a pass writes an intent to disk first, waits out a dwell between
-- changes, and stops at a limit of changes in an hour. The console changes network interfaces under
-- a guard that rolls a change back unless it is confirmed in time.
--
--   Supervisor/Proxy, Sorting, Comparison: internal/supervisor/client.go, the proxy configuration:
--     Validate is `validate`, Normalized is `normalized`, SameAs is `same_as`.
--   Supervisor/Api: the interface API of that file, which the watchdog takes as a parameter.
--   Supervisor/Client, Retry: the client that implements it: `do_once`, `do_request`, `set_proxy`.
--   Store/Config, Bounds: internal/store/config.go. Store/State, Changes: internal/store/state.go.
--   Store/Files, Atomic: writeJSONAtomic of config.go there, at each point of a crash.
--   Store/Login, Credentials: internal/store/auth.go.
--   Watchdog/World: what a pass acts on, and the monad of a pass, whose `finish` is Go's return.
--   Watchdog/Desired: desired, desiredFallback and desiredDynamic of internal/watchdog/watchdog.go.
--   Watchdog/Reconcile: reconcile in one function for each block, apply, ReconcileOnce, Unfreeze.
--   Watchdog/Triple, Stages: rules for what every block of a pass keeps.
--   Watchdog/Spacing, Calling, Dwell, Lifetime: passes, restarts and operators over the watchdog's life.
--   Watchdog/Budget, Spending, Hourly: the limit of changes in an hour, over that life.
--   Watchdog/Quiet, Breaker: where a pass has nothing to do; what a reboot and a release leave.
--   Watchdog/Dynamic: when the dynamic mode gives a proxy up. Convergence: a static proxy gets there.
--   Activity/Log, Window: internal/activity/activity.go.
--   Web/Pending, Rollback: internal/web/pending.go.
--   Web/Session, Fields, Cookies: the cookies and form tokens of internal/web/auth.go.
--   Web/Limiter, Spread, Tally, Throttle: the login limiter of that file, and postLogin of pages.go.
--   Web/Gate, Guarded: the routes with auth and mutate of internal/web/server.go, and postPassword.
--   Web/Settings, Saving: postProxySettings of internal/web/mutations.go, on the configuration store.
--   Web/Interfaces: postWifi, postIfaceState and postPriority of that file.
--   Web/Addressing, Reverting: postIPv4 of that file, over the guard and the NetworkManager client.
--   Web/Checks, Bundle: internal/web/api.go, how the checks go out, and the support bundle.
--   Web/Redacted, Secrets: what the bundle and the checks do with the proxy's password.
--   Diag/Icmp, Ping, Trace: Ping and Traceroute of internal/diag/net.go, one function for each block.
--   Diag/Reading, Pinging, Tracing: that their loops end, and what they report.
--   Diag/Route, Hex, Table: the default gateway and the resolvers of net.go, against /proc/net/route.
--   Diag/Tunnel, Ipv6, Endpoints: tunnel.go, ipv6.go and endpoints.go of internal/diag.
--   Netmgr/Dictionary, Bus: the settings and calls of NetworkManager, internal/netmgr/nm.go.
--   Netmgr/Seeding, Profiles: internal/netmgr/profiles.go. Netmgr/Address: ipv4.go and addr.go there.
--   Netmgr/Priority, Ordering: SetPriority of priority.go there.
--   Netmgr/Wifi, Joining: SetWifi of wifi.go there. Netmgr/Enabling: SetEnabled of ipv4.go there.
--   Netmgr/Owned, Identity, Laws, Undo, Change: what a restore gives back. Sample: for the examples.
--   Prober/Stages, Wire, Socks, Http, Probe: internal/proxyprobe, the stages of a probe, a connection,
--     the messages to a proxy, and `Probe` with one function for each block.
--   Prober/Certificates, Roots: tls.go there, the certificates of an intercepting proxy.
--   Prober/Rows, Paths: the report of a probe. RoundTrip, Drain: SOCKS5 against RFC 1928.
--
-- The historian (sparkplug-historian/sparkplug-sql). MQTT messages of a node are stored in a
-- database; what could not be stored is appended to a log that is replayed later. For each node a
-- goroutine asks for the data that was missed until the node answers.
--
--   Historian/Metric, Node: historian.go, values and the state that is kept.
--   Historian/Insert: insertData, and logAllMetrics of wal.go.
--   Historian/Track: trackVersions, a round of its loop at a time. Historian/Broker: the handlers.
--   Historian/Codec: the records of wal.go as bytes.
--   Historian/Segment, Replay: recoverFile of wal.go on a set of files.
--   Historian/Recovery, Crashes: the recovery of a node, a message that ends the process, and a race.
--
-- Base has the shared types: strings are lists of code points, in Prober and Historian of bytes,
-- and the length of a password is counted in UTF-8; `ℤ` is Go's int, and a product of int64 is
-- brought back into range by `scale64`. A time.Time is the number of nanoseconds since the zero
-- time (in Web/Session and Web/Limiter, since 1970). A pass, a handler or a round of a goroutine
-- is one step, with the clock's reading at its start. NetworkManager shows a profile without its
-- secrets, and its reads may fail; a theorem names the times at which none does. The loop of three
-- attempts in the client is recursion on the attempts that are left, which the code starts at 3;
-- `decimal` has one step more than its number, and `decode_many` one for each record that the
-- bytes can hold. The loops that read ICMP messages have fuel: as a message takes a tick of the
-- clock at least, as many reads as two seconds have ticks reach the deadline. The wait for a Wi-Fi
-- network polls each second up to thirty seconds, so 31 rounds are enough. The ICMP socket, the
-- HTTP library, bcrypt, HMAC and base64, the resolver, the dialer and TLS, NetworkManager's D-Bus
-- service, the parsing of IP addresses, the disk, the database, the clock and Go's floats are
-- parameters.
--
-- Not modelled: the JSON forms, the templates of the console's pages and its event streams, the listing
-- of devices and Wi-Fi networks, single name lookups and dials, the start of netcfgd, and the
-- historian's metadata: they pass on what a library gives them.
pub mod Base
pub mod Activity
pub mod Supervisor
pub mod Store
pub mod Watchdog
pub mod Web
pub mod Historian
pub mod Prober
pub mod Netmgr
pub mod Diag

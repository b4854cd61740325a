-- ===== src/Lib.antt =====
-- LabTether Linux agent, modelled from its Go source.
--
-- The agent collects telemetry, runs commands that its hub sends, and serves files, terminals and
-- remote desktops. This library models parts that decide what the agent does and keeps; each
-- module below names the files that it is about. Paths are from the repository's root.
--
-- - RingBuffer: internal/agentcore/ring_buffer.go, the telemetry buffer between the collectors and
--   the hub connection. `RingBuffer` is the record of its fields; `push`, `drain`, `flush` and
--   `len` are its methods. A critical section of its mutex is one step; what other goroutines do
--   outside the lock is a list of operations.
-- - Output: pkg/securityruntime/output.go, the capped capture of a subprocess's output. A
--   subprocess is the chunks that it writes and the error that it ends with.
-- - Command: pkg/securityruntime/command.go and command_parse.go, the policy for remote commands.
--   `Command.Env` reads the settings, `Command.Parse` is the parser, `Command.Policy` the checks
--   before a process is started, and `Command.Policy.Started` what a process that is started went
--   through.
-- - Upload: internal/agentcore/files/upload.go, the uploads that arrive in chunks. `Manager` is
--   the record of its fields with a store of its pending writes, so that two of them compare as
--   pointers do, and with the disk: the temporary files and the committed ones.
--   `write_chunk_context` is WriteChunkContext; `World` says what a call meets: whether its socket
--   is cancelled at each place that looks, how each operation on the disk ends, and what other
--   goroutines do between the locks.
-- - Settings: internal/agentcore/sysconfig/settings_definitions.go, the table of settings, entry
--   by entry, and settings_value_validation.go, the check that a value passes before it is stored
--   or applied. Package netip, sort.Strings and the check of an http URL are parameters
--   (`Packages`). `Base.Decimal` is strconv's Atoi and Itoa; the 19 digits that Itoa writes are
--   enough for an int.
-- - Keymap: internal/agentcore/remoteaccess/webrtc_keymap.go, the tables, entry by entry, and the
--   functions that turn the keys of a browser's events into Linux input codes and X11 keysyms.
-- - Input: internal/agentcore/remoteaccess/webrtc_input_lifecycle.go, the loop that injects the
--   events of one session and releases what it left pressed, with X11KeyArgument of
--   webrtc_input.go. What the loop meets is a list of `Arrival`s; the map of held inputs is an
--   association list. `Keymap` names the keys, and Input.Keys is about the names under which
--   inputs are held.
-- - DockerLog: internal/agentcore/docker/log_decode.go. DockerLog is `emit` of
--   streamDockerLogLines, DockerLog.Frames its loop over the frames of both streams,
--   DockerLog.Terminal its branch for a terminal and DockerLog.Log the function. `emit_loop` has
--   as many rounds as there are bytes, the loop over a payload as many as its size says, the loops
--   over frames and over the scanner's lines one more than there are bytes. The context is not
--   cancelled. DockerLog.Lines says byte by byte what lines are.
-- - Outbound: pkg/securityruntime/outbound.go and the dialling of outbound_http.go. The packages
--   net and net/url and the name server are the record `Network` of Outbound.Network, whose three
--   lookups answer independently: a name may resolve to other addresses each time. Outbound.Hosts
--   holds host names and patterns, Outbound.Policy the check of a host, Outbound.Requests the
--   checks of URLs and ports and the dial, with Outbound.Requests.Schemes the rules for schemes.
-- - Ownership: internal/agentcore/remoteaccess/webrtc_input_ownership.go, the keys that
--   controllers of one desktop share. Each critical section of a target's mutex is a function of
--   Ownership; Ownership.System has the step relation of any number of controllers, in which the
--   calls to the machine may fail, owners come and retire at any time outside their own turn, and
--   the gate is held by one turn at a time. Its `down` is not in the code: it follows which keys
--   the calls may have left pressed. A controller's handle stands for its pointer.
--   Ownership.Unlock has the loop of `unlock` on fuel; its rounds say what others do meanwhile.
-- - Settings.Apply: internal/agentcore/settings_runtime.go with sysconfig/settings_file.go and the
--   message handler of settings_ws_handler.go, how the settings that the hub sends reach the
--   runtime and the settings file. The switch over keys is a table of cases
--   (Settings.Apply.Cases), and `Runtime` holds the fields that it reaches. JSON and the file
--   system are the record `Disk`. The replies about the state and the configuration of the
--   intervals that is written besides are left out.
-- - Health: internal/agentcore/webservice/collector_health_cache.go and the check of a service in
--   collector_health_probe.go. An HTTP request is the parameter `Probe`, which answers a URL and a
--   path in the same way throughout a round. The workers of the second pass each change a service
--   of their own, so their order does not matter and the pass is a map. The loop that takes out
--   the oldest entries has as many rounds as the cache has entries, and each takes one at least;
--   that this is enough is part of the proof of the limit.
-- - Settings.Reported: internal/agentcore/sysconfig/settings_values.go and `ReportedAgentSettings`
--   of internal/agentcore/settings_runtime.go: what the agent says its settings are, after what
--   Settings.Apply did to them.
-- - Ownership.Registry: the registry of targets of
--   internal/agentcore/remoteaccess/webrtc_input_ownership.go, `acquire` and `release`, and the
--   ids of targets. A target is named by a handle, which stands for its pointer. `Step` puts the
--   critical sections in any order; a reader's own turns change its target in any way but for the
--   count of leases.
-- - Compose: internal/agentcore/docker/compose_selection.go: the selection of Compose files that
--   the labels of containers name, the stacks that they make, and the selection that an action
--   gets. The answer of the daemon and the file system are parameters; a map of labels is a list
--   of pairs.
--
-- Texts are lists of code points (Base.Text). Letter case is that of ASCII: strings.ToLower and
-- strings.EqualFold leave every other code point as it is. Numbers are unbounded where the
-- source's int cannot overflow for a value that fits in memory; a counter that wraps has its
-- modulus written out. Loops over a collection are structural recursion. Fuel bounds the others:
-- `flush` of the ring buffer, by the source's own count of rounds; `emit_loop`, by the bytes;
-- `evict`, by the entries; the writers of digits, by those of a 64-bit integer; and `unlock`, for
-- which the fuel that is enough is proved.
--
-- Not modelled: input and output, the operating system and network, logging, JSON, timers, and the
-- components that PROJECT.json lists as such.
pub mod Base
pub mod RingBuffer
pub mod Output
pub mod Command
pub mod Upload
pub mod Settings
pub mod Keymap
pub mod Input
pub mod DockerLog
pub mod Outbound
pub mod Ownership
pub mod Health
pub mod Compose

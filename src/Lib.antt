-- ===== src/Lib.antt =====
-- The PipeOps Kubernetes agent, a Go program that runs in a cluster and opens tunnels from it to
-- a control plane. The model has these parts.
--
-- Websocket, of internal/websocket: the binary frames of the tunnel (Websocket/Frame.antt,
-- frame.go), the detection of backpressure on a send channel (Websocket/Flow.antt, flow.go) and
-- the count of missed pongs (Websocket/Heartbeat.antt, heartbeat.go).
--
-- Tunnel, of internal/tunnel: the header of a stream (Tunnel/StreamHeader.antt,
-- stream_header.go) and the watcher that turns Gateways into registered tunnels
-- (Tunnel/GatewayWatcher.antt, gateway_watcher.go), with the search for the service behind a
-- listener (Tunnel/Gateway.antt, of the same file). The watcher calls the control plane to
-- register a tunnel and keeps a cache of what was accepted.
--
-- Agent, of internal/agent: the maps of TCP connections and UDP sessions with their limits,
-- counters and cleanups (Agent/TunnelManager.antt, with the sessions of one UDP tunnel in
-- Agent/UdpSessions.antt, tunnel_manager.go) and the handlers that use them, with one forwarding
-- goroutine for each TCP connection (Agent/TcpTunnel.antt, tcp_tunnel.go) and one listener for
-- each UDP socket (Agent/UdpTunnel.antt, udp_tunnel.go). The handlers, the rounds of the
-- goroutines and the cleanup are the steps of a relation, so a theorem on what it reaches holds
-- for each of their orders. A handler is one step: two handlers that run at the same time for
-- one ID are not modelled. The heartbeat of agent.go (Agent/Heartbeat.antt) sends its attempts,
-- waits between them and keeps the connection state, round by round. The checks of a request for
-- a service of agent.go (Agent/ServiceProxy.antt) hand its target to an origin dialer. The
-- registration of agent.go (Agent/Registration.antt) chooses the token, resumes a session or
-- registers, and is repeated after an error and after a reconnect.
--
-- Controlplane, of internal/controlplane: the checks of a request's path
-- (Controlplane/RequestPath.antt, websocket_proxy.go), the loop that reconnects
-- (Controlplane/Reconnect.antt, websocket_client.go) and what the socket carries, of the same
-- file. handleMessage works on the tables of the client, message after message
-- (Controlplane/Messages.antt: the parsing in Messages/Request.antt and Messages/Relay.antt, the
-- bodies of requests in Messages/Handle.antt, the other cases and the switch in
-- Messages/Switch.antt); what it does beside its tables, such as a call of a handler, is an
-- action in a list. A proxied request is handed to a response writer:
-- Controlplane/Response/Writer.antt is the interface with its laws, Response/Buffered.antt and
-- Response/Streaming.antt are the two writers that keep them, and Response/Dispatch.antt is the
-- dispatch for either; what a writer sends is the list of its calls of the sender. The binary
-- frames of both directions are in Controlplane/BinaryFrame.antt. The streams of kubectl exec
-- and its like (Controlplane/Streams.antt, websocket_proxy.go) meet the messages of the control
-- plane and the dials and ends of their own goroutines in any order (Streams/Events.antt);
-- Streams/Relay.antt translates their frames.
--
-- Ingress, of internal/ingress: the routes of an Ingress (Ingress/Routes.antt, watcher.go), the
-- watcher that caches them and reports them to the control plane (Ingress/Watcher.antt, with the
-- bulk sync in Ingress/Watcher/Sync.antt, start and stop in Ingress/Watcher/Lifecycle.antt) and
-- the retries of its requests (Ingress/Retry.antt). Events, syncs, starts and stops are the
-- steps of a relation.
--
-- Origin, of internal/origin: the dialers that turn a target into an address, in a cluster or by
-- a table of routes with an allowlist (Origin/Dialer.antt, dialer.go).
--
-- Components, of internal/components: the plan that installs the components one after the other,
-- and the test whether one is ready (Components/Orchestrator.antt, orchestrator.go).
--
-- State, of pkg/state: the manager that loads and saves the agent's state in a file, or in a
-- ConfigMap and a Secret (State/Manager.antt and State/Manager/Fields.antt, state.go).
--
-- Functions and fields keep the source's names in snake_case: RegisterTCPConnection is
-- register_tcp_connection. A string or a byte slice is its list of bytes, a Go map an
-- association list (Prelude/Map.antt), an error a value; times are numbers of nanoseconds.
-- Integers of 16, 32 and 64 bits are reduced where the source lets them wrap. A log message
-- leaves no trace in the model.
--
-- What the environment decides is an argument: the outcome of a dial, a read or a write, the
-- Gateways, Ingresses, services and routes that Kubernetes lists, whether a query can be parsed,
-- the ingress controller that is detected, the answer to a read or write of a file or an object,
-- the YAML of a state, the answer to a registration and the check of a token, the test of a fill
-- level in floating point, the jitter, the signals and the outcome of each round of the
-- reconnect loop. Such an argument has no law unless a theorem names one. A closed connection or
-- socket is an entry in a list, so that a theorem can say what was closed.
--
-- The loop over double slashes in a path runs on fuel, one unit for each byte of the path, which
-- is enough because each of its rounds makes the path shorter by a byte; the printing of a
-- number runs on as much fuel as the number. Retries count down the attempts that are left, as
-- the source counts them up. The other loops are over lists.
--
-- Not modelled: the rest of the agent, which calls Kubernetes, Helm, HTTP, yamux and the
-- WebSocket library (cmd/agent, internal/helm, internal/server, internal/upgrade,
-- internal/encryption, the rest of internal/components, internal/ingress and pkg), the ping
-- sender, the informers and the work queue of the watchers, the detection of the ingress
-- controller, and the registration of the control plane client. Of a proxied request's message
-- its headers, head data, deadline and limits are left out; a write to the pipe of a body is one
-- step, though the source waits in it until the service has read the chunk or closes the pipe;
-- how much of the chunk it has read then is an argument.
pub mod Prelude
pub mod Websocket
pub mod Tunnel
pub mod Agent
pub mod Controlplane
pub mod Ingress
pub mod State
pub mod Origin
pub mod Components
mod Tests

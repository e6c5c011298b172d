-- ===== src/Lib.antt =====
-- Xautojs DevSpace: the control plane of the cloud gateway, and the checks that guard a local
-- machine.
--
-- The gateway receives tool calls of MCP sessions and passes them to desktop devices. A desktop
-- gets a token by the device-code flow (DeviceAuth), connects (Connections, Channel) and is
-- registered (Routing). A session is paired with a device (Sessions), a workspace of the device's
-- catalog is bound to a session and a device (Selection), each tool call is routed and recorded
-- (Routing.Store) and sent to the device over its channel (Executor, Channel), and what was done
-- is logged, with replays of a request answered from the log (Audit). The device's socket at the
-- gateway (Socket) is authenticated by a signed token (Token) and tells the workspaces that the
-- device offers (Catalog). On the device, the client of that socket (Agent) passes a call to the
-- receiver, which asks about it (Receiver), a path is checked against the allowed roots and a
-- command against the policy (Policy), and the native agent's hooks decide on its tools (Hooks).
--
-- Files and sources:
--   Prelude            JavaScript's strings (lists of UTF-16 code units), Map (entries in the order
--                      of insertion), integers for Date, values of JSON.parse, exceptions
--                      (Result), and methods that pass an object's state on (State)
--   Routing.Contract   src/cloud-routing-contract.ts; Contract.Capabilities its set of capabilities
--   Routing.Store      src/cloud-routing-store.ts; Store.Methods and Store.ToolCalls have a method
--                      each, under the source's name; Store.History runs sequences of calls
--   Routing.Keys, Routing.Crossing   scopedKey of the same file
--   Sessions           src/cloud-session-binding.ts; Sessions.Client looks devices up in the
--                      routing store
--   Connections        src/cloud-device-connection-store.ts
--   Audit              src/cloud-control-plane-audit.ts
--   DeviceAuth         src/cloud-device-code-auth.ts: the store here, the methods in
--                      DeviceAuth.Service and DeviceAuth.Create; DeviceAuth.Flow goes from approve
--                      to poll
--   Catalog            src/cloud-workspace-catalog-store.ts
--   Selection          src/cloud-workspace-selection-service.ts, over Sessions, Routing, Catalog
--                      and Audit; the fingerprint of src/cloud-control-plane-audit.ts for the
--                      flat objects that it gives
--   Channel            src/websocket-device-channel.ts, with the messages of
--                      src/cloud-device-channel-protocol.ts and src/remote-mcp-tool-executor.ts
--   Executor           src/gateway-mcp-tool-executor.ts; Executor.Remote
--                      src/remote-mcp-tool-executor.ts; Executor.Ended how a call's record ends
--   Token              src/cloud-gateway-auth.ts; Token.Poll with the service of DeviceAuth
--   Socket             src/cloud-device-websocket-route.ts: the parts of the handlers here, the
--                      listeners in Socket.Events, the validation of messages in Socket.Messages;
--                      Socket.Wire the values that src/cloud-device-channel-protocol.ts and
--                      src/local-agent-outbound-client.ts write
--   Agent              src/local-agent-outbound-client.ts; its intervals in Agent.Intervals,
--                      what it reads in Agent.Messages; Agent.EndToEnd with the receiver, the
--                      channel and the gateway's reading; Agent.Lifecycle
--                      src/desktop-outbound-agent-lifecycle.ts
--   Receiver           src/local-agent-receiver.ts
--   Hooks              src/native-agent-hooks.ts (Hooks.Manager, Hooks.Defaults) and
--                      src/native-agent-hook-config.ts (Hooks.Parse, Hooks.Config);
--                      Hooks.Reference decides from the list of all opinions
--   Policy.Roots       src/roots.ts; Roots.Laws compares it with names on the way to a path, where
--                      node:path is as documented for POSIX
--   Policy.Commands    src/native-agent-policy.ts
--
-- A method is a function of the object's state that gives the new state and a result or what was
-- thrown; what was written before a throw stays written. Records that the source clones are values
-- here. A call runs to its end before the next one starts, except where Sessions cuts resolveDevice
-- and Socket a hello at their awaits, in Executor, where other calls may run while one waits for its
-- device, and in Channel, where timers, failed sends and answers are events of their own. What an
-- approval prompt, the tools, the device channel of an executor and authenticate answer, HMAC,
-- base64url, JSON.parse, the clock, Date.parse, toISOString, toUpperCase, random values, sha256,
-- JSON.stringify, localeCompare, node:path and os.homedir are arguments. Errors keep their code,
-- their message and whether they may be retried, and the details that name ids.
--
-- Every loop is structural recursion; uniqueUserCode has its twenty rounds as in the source. A loop
-- over a Map that deletes visits the entries that are there at its start, which is what the source
-- does, since it adds none and deletes only entries that it is at.
--
-- Not modelled: the stores over PostgreSQL and SQLite, whose statements run outside the source;
-- HTTP routes, the CLI, configuration and user interfaces, which are glue; OAuth, automation, the
-- desktop tools of the gateway and the native agent's runtime. Of the modelled files:
-- listConnections, listEvents, the fingerprint of a nested value, matchesPath, the decoding of raw
-- data, and the functions that only copy a record.
pub mod Prelude
pub mod Routing
pub mod Selection
pub mod Sessions
pub mod Connections
pub mod Audit
pub mod DeviceAuth
pub mod Policy
pub mod Catalog
pub mod Channel
pub mod Token
pub mod Hooks
pub mod Receiver
pub mod Executor
pub mod Socket
pub mod Agent

-- ===== src/Agent.antt =====
-- src/local-agent-outbound-client.ts: `LocalAgentOutboundClient`, the desktop's end of the connection
-- to the gateway. Sockets and intervals are numbers, in the order in which they are made; `running`
-- holds the intervals that run, `sent` and `closed` what the sockets are asked for. Whether a socket
-- is open, as its `readyState` says, is the argument `ready`. What a catalog provider and the
-- receiver answer comes as an event of its own.
pub mod Intervals
pub mod Closing
pub mod Lifecycle
pub mod Single
pub mod Messages
pub mod EndToEnd
mod Tests
use xautojs_devspace.Channel.{normalize_channel_capabilities}
use xautojs_devspace.Channel.Messages.{
  AgentMessage, WorkspaceCatalogEntry, heartbeat_message, hello_message, workspace_catalog_message,
}
use xautojs_devspace.Prelude.{
  Bool, List, Option, [], false, if◌then◌else◌, none, some, suc, true, ℕ, ◌&&◌, ◌++◌, ◌==◌, ◌||◌,
  ◌∷◌,
}
use xautojs_devspace.Prelude.Json.{Json}
use xautojs_devspace.Prelude.Text.{Text}

-- What is read of `LocalAgentOutboundClientOptions`.
pub record ClientOptions : Type 0 where
  pub device_id : Text
  pub desktop_instance_id : Option Text
  pub agent_version : Option Text
  pub capabilities : Option (List Text)
  pub has_catalog_provider : Bool

-- An interval that runs: the heartbeat's, or the catalog's.
pub record Interval : Type 0 where
  pub number : ℕ
  pub sends_heartbeat : Bool

pub record Client : Type 0 where
  pub socket : Option ℕ
  pub heartbeat : Option ℕ
  pub catalog_refresh : Option ℕ
  pub sockets : ℕ
  pub intervals : ℕ
  pub running : List Interval
  pub sent : List (ℕ × AgentMessage Json)
  pub closed : List (ℕ × Text)

abbrev pub new_client : Client
new_client = record {
  socket = none;
  heartbeat = none;
  catalog_refresh = none;
  sockets = 0;
  intervals = 0;
  running = [];
  sent = [];
  closed = [];
}

-- `clearInterval`
unfoldable pub clear_interval : ℕ → List Interval → List Interval
clear_interval t [] = []
clear_interval t (r ∷ rs) =
    let rest = clear_interval t rs in if r.number == t then rest else r ∷ rest

unfoldable pub stop_heartbeat : Client → Client
unfolding clear_interval
stop_heartbeat c = elim c.heartbeat [
  | none ↦ c
  | some t ↦ record c { running = clear_interval t c.running; heartbeat = none }
]

unfoldable pub start_heartbeat : Client → Client
start_heartbeat c =
    let s : Client = stop_heartbeat c in
    record s {
      heartbeat = some s.intervals;
      intervals = suc s.intervals;
      running = record { number = s.intervals; sends_heartbeat = true } ∷ s.running;
    }

unfoldable pub stop_catalog_refresh : Client → Client
unfolding clear_interval
stop_catalog_refresh c = elim c.catalog_refresh [
  | none ↦ c
  | some t ↦ record c { running = clear_interval t c.running; catalog_refresh = none }
]

unfoldable pub start_catalog_refresh : ClientOptions → Client → Client
start_catalog_refresh options c =
    let s : Client = stop_catalog_refresh c in
    if options.has_catalog_provider
    then record s {
      catalog_refresh = some s.intervals;
      intervals = suc s.intervals;
      running = record { number = s.intervals; sends_heartbeat = false } ∷ s.running;
    }
    else s

unfoldable pub send_json : (ℕ → Bool) → AgentMessage Json → Client → Client
send_json ready message c = elim c.socket [
  | none ↦ c
  | some socket ↦ if ready socket then record c { sent = c.sent ++ (socket, message) ∷ [] } else c
]

-- `start()`, up to the events of the socket.
unfoldable pub start : Client → Client
start c = elim c.socket [
  | some _ ↦ c
  | none ↦ record c { socket = some c.sockets; sockets = suc c.sockets }
]

-- `stop(reason)`
unfoldable pub stop : Text → Client → Client
stop reason c =
    let cleared : Client = stop_catalog_refresh (stop_heartbeat (record c { socket = none })) in
    elim c.socket [
      | none ↦ cleared
      | some socket ↦ record cleared { closed = cleared.closed ++ (socket, reason) ∷ [] }
    ]

module _ (options : ClientOptions) (ready : ℕ → Bool) (now : Text) where
  unfoldable pub send_hello : Client → Client
  unfolding normalize_channel_capabilities
  send_hello c =
      send_json ready
        (hello_message (record {
          device_id = options.device_id;
          desktop_instance_id = options.desktop_instance_id;
          agent_version = options.agent_version;
          capabilities = normalize_channel_capabilities options.capabilities;
          time = now;
        }))
        c

  -- The callback of the heartbeat's interval.
  unfoldable pub send_heartbeat : Client → Client
  send_heartbeat c =
      send_json ready
        (heartbeat_message
          (record { device_id = options.device_id; connection_id = none; time = now }))
        c

  -- `publishWorkspaceCatalog`, once the provider has answered.
  unfoldable pub publish_catalog : Option Text → List WorkspaceCatalogEntry → Client → Client
  publish_catalog catalog_version workspaces c =
      send_json ready
        (workspace_catalog_message (record {
          device_id = options.device_id;
          catalog_version = catalog_version;
          workspaces = workspaces;
          time = now;
        }))
        c

  -- The listener of "open", of whichever socket.
  unfoldable pub on_open : Client → Client
  on_open c = start_catalog_refresh options (start_heartbeat (send_hello c))

-- The listener of "close", of whichever socket.
unfoldable pub on_socket_close : Client → Client
on_socket_close c = record (stop_catalog_refresh (stop_heartbeat c)) { socket = none }

-- What happens to a client: the calls of its owner, the events of a socket, a tick of the heartbeat
-- with its interval, a catalog that the provider gives, an answer of the receiver.
pub data ClientEvent : Type 0 where
  starts closes opens : ClientEvent
  stops : Text → ClientEvent
  ticks : ℕ → ClientEvent
  publishes : Option Text → List WorkspaceCatalogEntry → ClientEvent
  answers : AgentMessage Json → ClientEvent

-- The interval runs, and its callback sends a heartbeat.
unfoldable pub beats : ℕ → List Interval → Bool
beats t [] = false
beats t (r ∷ rs) = (r.number == t && r.sends_heartbeat) || beats t rs

unfoldable pub step : ClientOptions → (ℕ → Bool) → Text → ClientEvent → Client → Client
unfolding beats
step options ready now starts c = start c
step options ready now closes c = on_socket_close c
step options ready now opens c = on_open options ready now c
step options ready now (stops reason) c = stop reason c
step options ready now (ticks t) c =
    if beats t c.running then send_heartbeat options ready now c else c
step options ready now (publishes version workspaces) c =
    if options.has_catalog_provider
    then publish_catalog options ready now version workspaces c
    else c
step options ready now (answers message) c = send_json ready message c

unfoldable pub run_client : ClientOptions → List ((ℕ → Bool) × Text × ClientEvent) → Client → Client
run_client options [] c = c
run_client options ((ready, now, event) ∷ rest) c =
    run_client options rest (step options ready now event c)

-- ===== src/Agent/Lifecycle.antt =====
-- src/desktop-outbound-agent-lifecycle.ts: `DesktopOutboundAgentLifecycle`, which has at most one
-- outbound client. The clients that it had are listed, as they were left. Instants, what
-- `toLowerCase` gives, and whether a socket can be made are arguments.
use xautojs_devspace.Agent.{Client, ClientEvent, ClientOptions, new_client, start, step, stop}
use xautojs_devspace.Prelude.{
  Bool, List, Option, String, [], get_or, if◌then◌else◌, none, not, some, ℕ, ◌&&◌, ◌++◌, ◌∷◌,
}
use xautojs_devspace.Prelude.JsMap.{JsMap, put}
use xautojs_devspace.Prelude.Result.{Result, err, ok, ◌>>=◌}
use xautojs_devspace.Prelude.State.{Method}
use xautojs_devspace.Prelude.Text.{Text, text, text_eq, trim, truthy}

pub data AgentStatus : Type 0 where
  agent_stopped agent_running : AgentStatus

-- `DesktopOutboundAgentConfig`; the intervals, the receiver and the factories are left out.
pub record AgentConfig : Type 0 where
  pub url : Text
  pub auth_token : Text
  pub device_id : Text
  pub capabilities : Option (List Text)
  pub desktop_instance_id : Option Text
  pub agent_version : Option Text
  pub has_catalog_provider : Bool
  pub headers : Option (List (Text × Text))

-- `DesktopOutboundAgentSnapshot`
pub record AgentSnapshot : Type 0 where
  pub status : AgentStatus
  pub url : Option Text
  pub device_id : Option Text
  pub desktop_instance_id : Option Text
  pub agent_version : Option Text
  pub started_at : Option Text
  pub stopped_at : Option Text

-- A client with what it was made of.
pub record OutboundClient : Type 0 where
  pub url : Text
  pub options : ClientOptions
  pub headers : JsMap Text
  pub client : Client

pub record Lifecycle : Type 0 where
  pub client : Option OutboundClient
  pub config : Option AgentConfig
  pub snapshot : AgentSnapshot
  pub left : List OutboundClient

abbrev pub no_agent : Lifecycle
no_agent = record {
  client = none;
  config = none;
  snapshot = record {
    status = agent_stopped;
    url = none;
    device_id = none;
    desktop_instance_id = none;
    agent_version = none;
    started_at = none;
    stopped_at = none;
  };
  left = [];
}

abbrev pub LifecycleMethod : Type 0 → Type 0
LifecycleMethod A = Method Lifecycle Text A

unfoldable pub required_agent_string : Text → String → Result Text Text
unfolding trim text
required_agent_string value field_name =
    let trimmed : Text = trim value in
    if truthy trimmed
    then ok trimmed
    else err (text field_name ++ text " is required for Desktop outbound agent lifecycle.")

-- `stop(reason)`
unfoldable pub stop_agent : Text → Text → Lifecycle → Lifecycle
stop_agent reason now s = record s {
  client = none;
  snapshot = record s.snapshot { status = agent_stopped; stopped_at = some now };
  left = elim s.client [
    | none ↦ s.left
    | some c ↦ s.left ++ record c { client = stop reason c.client } ∷ []
  ];
}

module _ (to_lower : Text → Text) where
  put_headers : List (Text × Text) → JsMap Text → JsMap Text
  unfolding trim text text_eq put
  put_headers [] normalized = normalized
  put_headers ((key, value) ∷ rest) normalized =
      let name : Text = to_lower (trim key) in
      let given : Text = trim value in
      if truthy name && truthy given && not (text_eq name (text "authorization"))
      then put_headers rest (put name given normalized)
      else put_headers rest normalized

  unfoldable pub normalize_headers : Option (List (Text × Text)) → JsMap Text
  unfolding put_headers
  normalize_headers headers = put_headers (get_or headers []) []

  unfoldable pub normalize_config : AgentConfig → Result Text AgentConfig
  unfolding required_agent_string normalize_headers
  normalize_config config = do
    url ← required_agent_string config.url "url"
    auth_token ← required_agent_string config.auth_token "authToken"
    device_id ← required_agent_string config.device_id "deviceId"
    ok (record config {
      url = url;
      auth_token = auth_token;
      device_id = device_id;
      headers = some (normalize_headers config.headers);
    })

  -- The client of a normalized configuration, before it starts.
  unfoldable pub make_client : AgentConfig → OutboundClient
  unfolding text
  make_client config = record {
    url = config.url;
    options = record {
      device_id = config.device_id;
      desktop_instance_id = config.desktop_instance_id;
      agent_version = config.agent_version;
      capabilities = config.capabilities;
      has_catalog_provider = config.has_catalog_provider;
    };
    headers =
        put (text "authorization") (text "Bearer " ++ config.auth_token) (get_or config.headers []);
    client = new_client;
  }

  -- `start(config)`: the client before is stopped at `stopping`; `connected` says whether the socket
  -- of the new one can be made.
  unfoldable pub start_agent :
      AgentConfig
      → Text
      → Text
      → Result Text (Unit {0})
      → Lifecycle
      → Lifecycle × Result Text AgentSnapshot
  unfolding text
  start_agent config stopping now connected s =
      let before : Lifecycle = stop_agent (text "restarting") stopping s in
      elim (normalize_config config) [
        | err e ↦ (before, err e)
        | ok normalized ↦
            let made : OutboundClient = make_client normalized in
            let snapshot : AgentSnapshot = record {
              status = agent_running;
              url = some normalized.url;
              device_id = some normalized.device_id;
              desktop_instance_id = normalized.desktop_instance_id;
              agent_version = normalized.agent_version;
              started_at = some now;
              stopped_at = none;
            } in
            let after : OutboundClient → Lifecycle = λ c. record before {
              client = some c;
              config = some normalized;
              snapshot = snapshot;
            } in
            elim connected [
              | err e ↦ (after made, err e)
              | ok done ↦ (after (record made { client = start made.client }), ok snapshot)
            ]
      ]

  -- `restart()`
  unfoldable pub restart_agent :
      Text → Text → Result Text (Unit {0}) → Lifecycle → Lifecycle × Result Text AgentSnapshot
  restart_agent stopping now connected s = elim s.config [
    | none ↦ (s, ok s.snapshot)
    | some config ↦ start_agent config stopping now connected s
  ]

  -- What happens to an agent: the calls of the desktop, and the events of its client.
  pub data AgentEvent : Type 0 where
    agent_starts : AgentConfig → Text → Text → Result Text (Unit {0}) → AgentEvent
    agent_restarts : Text → Text → Result Text (Unit {0}) → AgentEvent
    agent_stops : Text → Text → AgentEvent
    client_does : (ℕ → Bool) → Text → ClientEvent → AgentEvent

  unfoldable pub agent_step : AgentEvent → Lifecycle → Lifecycle
  agent_step (agent_starts config stopping now connected) s =
      (start_agent config stopping now connected s).0
  agent_step (agent_restarts stopping now connected) s = (restart_agent stopping now connected s).0
  agent_step (agent_stops reason now) s = stop_agent reason now s
  agent_step (client_does ready now event) s = elim s.client [
    | none ↦ s
    | some c ↦ record s {
      client = some (record c { client = step c.options ready now event c.client });
    }
  ]

  unfoldable pub run_agent : List AgentEvent → Lifecycle → Lifecycle
  run_agent [] s = s
  run_agent (event ∷ rest) s = run_agent rest (agent_step event s)

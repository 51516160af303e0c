-- ===== src/Core/Network.antt =====
-- The connection to the network, by aquaOneCore/src/Network/NetworkService.cpp with
-- include/AquaCore/Network/NetworkService.h. The backend's answers are arguments and what it is asked is kept in
-- order; a text is its characters, and the constructor takes a clock of its own.
pub mod Attempt
pub mod Retry
mod Examples
use aqua_one.Base.{
  ℕ, zero, suc, ◌+◌, ◌-◌, ◌*◌, ◌%◌, ◌^◌, Bool, true, false, not, ◌&&◌, ◌||◌, ◌==◌, ltb, leb,
  if◌then◌else◌, List, [], ◌∷◌, length, elapsed, word,
}

pub data NetworkState : Type 0 where
  disabled : NetworkState
  idle : NetworkState
  connecting : NetworkState
  connected : NetworkState
  disconnected : NetworkState
  error : NetworkState

-- AccessPointState.
pub data PointState : Type 0 where
  no_point : PointState
  active : PointState
  point_error : PointState

-- BackendStaState.
pub data StaState : Type 0 where
  sta_disconnected : StaState
  sta_connecting : StaState
  sta_connected : StaState
  sta_error : StaState

-- NetworkDisconnectReason.
pub data Reason : Type 0 where
  no_reason : Reason
  unknown : Reason
  association_expired : Reason
  connection_failed : Reason
  association_comeback_too_long : Reason
  authentication_failed : Reason
  ap_not_found : Reason
  other : Reason

-- NetworkConfig, but for the settings that are only passed on.
pub record Config : Type 0 where
  pub sta_enabled : Bool
  pub ssid : List ℕ
  pub hostname : List ℕ
  pub auto_reconnect : Bool
  pub reconnect_interval_ms : ℕ
  pub connect_timeout_ms : ℕ
  pub fast_retry_enabled : Bool
  pub fast_reconnect_interval_ms : ℕ
  pub ap_enabled : Bool
  pub ap_ssid : List ℕ

abbrev pub no_config : Config
no_config = record {
  sta_enabled = false;
  ssid = [];
  hostname = [];
  auto_reconnect = true;
  reconnect_interval_ms = 10000;
  connect_timeout_ms = 0;
  fast_retry_enabled = false;
  fast_reconnect_interval_ms = 0;
  ap_enabled = false;
  ap_ssid = [];
}

-- What the backend is asked to do.
pub data Request : Type 0 where
  apply_radio_policy : Request
  set_hostname : Request
  begin_sta : Request
  reconnect_sta : Request
  disconnect_sta : Request
  start_access_point : Request
  stop_access_point : Request

-- NetworkService; a time that the code marks as unset keeps its mark.
pub record Service : Type 0 where
  pub config : Config
  pub state : NetworkState
  pub ap_state : PointState
  pub ip_address : ℕ
  pub ap_ip_address : ℕ
  pub signal : ℕ
  pub reconnect_count : ℕ
  pub reconnect_anchor_ms : ℕ
  pub active_interval_ms : ℕ
  pub connecting_started_ms : ℕ
  pub connected_since_ms : ℕ
  pub initialized : Bool
  pub initialization_failed : Bool
  pub has_reconnect_anchor : Bool
  pub has_connecting_started : Bool
  pub has_connected_since : Bool
  -- The last request first.
  pub requests : List Request

abbrev pub initial : Service
initial = record {
  config = no_config;
  state = disabled;
  ap_state = no_point;
  ip_address = 0;
  ap_ip_address = 0;
  signal = 0;
  reconnect_count = 0;
  reconnect_anchor_ms = 0;
  active_interval_ms = 10000;
  connecting_started_ms = 0;
  connected_since_ms = 0;
  initialized = false;
  initialization_failed = false;
  has_reconnect_anchor = false;
  has_connecting_started = false;
  has_connected_since = false;
  requests = [];
}

abbrev pub is_empty : List ℕ → Bool
is_empty l = length l == 0

-- validateConfig(config); a text that is a list has its end.
unfoldable pub validate_config : Config → Bool
validate_config c =
    if c.sta_enabled && (is_empty c.ssid || (c.auto_reconnect && c.reconnect_interval_ms == 0))
    then false
    else not c.ap_enabled || not (is_empty c.ap_ssid)

-- clearStaRuntime().
unfoldable pub clear_sta_runtime : Service → Service
clear_sta_runtime s = record s {
  ip_address = 0;
  signal = 0;
  connected_since_ms = 0;
  has_connected_since = false;
}

-- What the backend answers to begin.
pub record BeginAnswers : Type 0 where
  pub applies : Bool
  pub starts_point : Bool
  pub point_ip : ℕ
  pub sets_hostname : Bool
  pub begins : Bool

abbrev request_if : Bool → Request → List Request → List Request
request_if true r rs = r ∷ rs
request_if false r rs = rs

-- The reset at the start of begin.
unfoldable pub begin_reset : Service → Service
begin_reset s = record initial {
  requests =
      request_if (s.initialized && s.config.ap_enabled) stop_access_point
        (request_if (s.initialized && s.config.sta_enabled) disconnect_sta s.requests);
}

-- begin from the station on.
unfoldable pub begin_station : BeginAnswers → Service → Service × Bool
begin_station a s =
    let named =
      if is_empty s.config.hostname then s else record s { requests = set_hostname ∷ s.requests } in
    let failed = record named { state = error; initialization_failed = true } in
    let began = record named { requests = begin_sta ∷ named.requests } in
    if not s.config.sta_enabled
    then (record s { state = idle }, true)
    else if not (is_empty s.config.hostname) && not a.sets_hostname
    then (failed, false)
    else if not a.begins
    then (record began { state = error; initialization_failed = true }, false)
    else (record began { state = connecting }, true)

-- begin(config).
unfoldable pub begin : BeginAnswers → Config → Service → Service × Bool
unfolding begin_reset
begin a c s =
    let r = begin_reset s in
    let taken = record r { config = c; active_interval_ms = c.reconnect_interval_ms } in
    let applied = record taken { requests = apply_radio_policy ∷ taken.requests } in
    let ready = record applied { initialized = true } in
    let asked = record ready { requests = start_access_point ∷ ready.requests } in
    if not (validate_config c)
    then (record r { state = error }, false)
    else if not c.sta_enabled && not c.ap_enabled
    then (record taken { initialized = true }, true)
    else if not a.applies
    then (record applied { state = error }, false)
    else if not c.ap_enabled
    then begin_station a ready
    else if a.starts_point
    then begin_station a (record asked { ap_state = active; ap_ip_address = a.point_ip })
    else (
      record asked { ap_state = point_error; state = error; initialization_failed = true },
      false,
    )

-- What the backend and the clock answer to update.
pub record Observation : Type 0 where
  pub now : ℕ
  pub sta : StaState
  pub local_ip : ℕ
  pub rssi : ℕ
  pub reason : Reason
  pub reconnects : Bool

abbrev pub is_fast_candidate : Reason → Bool
is_fast_candidate association_expired = true
is_fast_candidate connection_failed = true
is_fast_candidate association_comeback_too_long = true
is_fast_candidate _ = false

abbrev pub is_connected : NetworkState → Bool
is_connected connected = true
is_connected _ = false

abbrev is_sta_error : StaState → Bool
is_sta_error sta_error = true
is_sta_error _ = false

-- uint64_t a - b.
abbrev pub since : ℕ → ℕ → ℕ
since a b = (a + 2 ^ 64 - b) % 2 ^ 64

-- observeDisconnected(backendState, nowMs).
unfoldable pub observe_disconnected : Observation → StaState → Service → Service
unfolding clear_sta_runtime
observe_disconnected o sta s =
    let lost = record (clear_sta_runtime s) {
      connecting_started_ms = 0;
      has_connecting_started = false;
      state = if is_sta_error sta then error else disconnected;
    } in
    let fast =
      s.config.fast_retry_enabled
      && is_fast_candidate o.reason
      && ltb 0 s.config.fast_reconnect_interval_ms in
    let tried = record lost {
      reconnect_anchor_ms = o.now;
      has_reconnect_anchor = false;
      reconnect_count = (s.reconnect_count + 1) % word;
      requests = reconnect_sta ∷ s.requests;
    } in
    if not s.has_reconnect_anchor
    then record lost {
      reconnect_anchor_ms = o.now;
      has_reconnect_anchor = true;
      active_interval_ms =
          if fast then s.config.fast_reconnect_interval_ms else s.config.reconnect_interval_ms;
    }
    else if not s.config.auto_reconnect
        || ltb (since o.now s.reconnect_anchor_ms) s.active_interval_ms
    then lost
    else if o.reconnects
    then record tried {
      state = connecting;
      connecting_started_ms = o.now;
      has_connecting_started = true;
    }
    else record tried { state = error }

-- update() with the station connected.
unfoldable pub observe_connected : Observation → Service → Service
observe_connected o s =
    let old = is_connected s.state in
    record s {
      connected_since_ms = if old then s.connected_since_ms else o.now;
      has_connected_since = if old then s.has_connected_since else true;
      state = connected;
      has_reconnect_anchor = false;
      has_connecting_started = false;
      connecting_started_ms = 0;
      ip_address = o.local_ip;
      signal = o.rssi;
    }

-- update() with the station connecting.
unfoldable pub observe_connecting : Observation → Service → Service
unfolding clear_sta_runtime observe_disconnected
observe_connecting o s =
    let waits = record (clear_sta_runtime s) { state = connecting } in
    if not s.has_connecting_started
    then record waits { connecting_started_ms = o.now; has_connecting_started = true }
    else if ltb 0 s.config.connect_timeout_ms
        && leb s.config.connect_timeout_ms (since o.now s.connecting_started_ms)
    then observe_disconnected o sta_disconnected waits
    else waits

abbrev pub observe : StaState → Observation → Service → Service
observe sta_connected o s = observe_connected o s
observe sta_connecting o s = observe_connecting o s
observe sta o s = observe_disconnected o sta s

-- update().
unfoldable pub update : Observation → Service → Service
unfolding observe_connected observe_connecting observe_disconnected
update o s =
    if not s.initialized || s.initialization_failed || not s.config.sta_enabled
    then s
    else observe o.sta o s

-- connectionUptimeAt(nowMs).
unfoldable pub connection_uptime_at : ℕ → Service → ℕ
connection_uptime_at now s =
    if not (is_connected s.state) || not s.has_connected_since
    then 0
    else since now s.connected_since_ms

-- LegacyMillisClock.
pub record LegacyClock : Type 0 where
  pub now_ms : ℕ
  pub last_ms : ℕ
  pub has_observation : Bool

-- observe(nowMs) and expanded(nowMs).
unfoldable pub observe_clock : ℕ → LegacyClock → LegacyClock
observe_clock now c = record {
  now_ms = if c.has_observation then (c.now_ms + elapsed now c.last_ms) % 2 ^ 64 else now;
  last_ms = now;
  has_observation = true;
}

unfoldable pub expanded : ℕ → LegacyClock → ℕ
expanded now c = if c.has_observation then (c.now_ms + elapsed now c.last_ms) % 2 ^ 64 else now

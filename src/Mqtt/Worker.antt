-- ===== src/Mqtt/Worker.antt =====
-- app/engine/mqtt_client.c: which broker the worker tries, and how long it waits in between.
use event_engine_acap.Prelude.{
  ℕ, ◌+◌, ◌*◌, ◌%◌, Bool, true, false, ltb, leb, ◌==◌, if◌then◌else◌, Option, none, some,
}

-- `RECONNECT_DELAY_MIN` and `RECONNECT_DELAY_MAX`
abbrev pub reconnect_delay_min : ℕ
reconnect_delay_min = 2

abbrev pub reconnect_delay_max : ℕ
reconnect_delay_max = 60

-- `server_index` and `reconnect_delay`
pub record Worker : Type 0 where
  pub server_index : ℕ
  pub reconnect_delay : ℕ

-- How a round of the loop of `worker_fn` goes: no broker is set, the broker has no host, a step of
-- the connection fails, or a session comes to its end, perhaps on request.
pub data Round : Type 0 where
  idle no_host tcp_failed tls_failed handshake_failed : Round
  session_ended : Bool → Round

-- The worker and whether the list is back at the primary broker.
unfoldable pub next_server : ℕ → Worker → Worker × Bool
next_server count w =
    let i = (w.server_index + 1) % count in
    if leb count 1 then (w, true) else (record w { server_index = i }, i == 0)

unfoldable pub longer_delay : ℕ → ℕ
longer_delay d = if ltb d reconnect_delay_max then d * 2 else reconnect_delay_max

-- `if (server_index >= count) server_index = 0;`
unfoldable pub pick_server : ℕ → Worker → Worker
pick_server count w = if leb count w.server_index then record w { server_index = 0 } else w

-- The worker after a failure to connect, and the seconds that it waits.
unfoldable pub after_failure : ℕ → Worker → Worker × Option ℕ
after_failure count w =
    let (w', wrapped) = next_server count w in
    if wrapped
    then (record w' { reconnect_delay = longer_delay w'.reconnect_delay }, some w'.reconnect_delay)
    else (w', some 1)

-- A session sets the delay back when it starts; it ends on request, or waits.
unfoldable pub after_session : Bool → Worker → Worker × Option ℕ
after_session true w = (record w { reconnect_delay = reconnect_delay_min }, none)
after_session false w =
    (record w { reconnect_delay = longer_delay reconnect_delay_min }, some reconnect_delay_min)

-- `count` is the number of brokers.
unfoldable pub worker_round : ℕ → Round → Worker → Worker × Option ℕ
worker_round count idle w = (w, some 2)
worker_round count no_host w = ((next_server count (pick_server count w)).0, some 1)
worker_round count tcp_failed w = after_failure count (pick_server count w)
worker_round count tls_failed w = after_failure count (pick_server count w)
worker_round count handshake_failed w =
    let p = pick_server count w in
    (
      record {
        server_index = (p.server_index + 1) % count;
        reconnect_delay = longer_delay p.reconnect_delay;
      },
      some p.reconnect_delay,
    )
worker_round count (session_ended forced) w = after_session forced (pick_server count w)

unfoldable pub worker_start : Worker
worker_start = record { server_index = 0; reconnect_delay = reconnect_delay_min }

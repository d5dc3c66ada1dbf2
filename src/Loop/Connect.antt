-- ===== src/Loop/Connect.antt =====
-- Connect of zk/conn.go and its options.
use go_zookeeper.Base.{
  ℕ, ◌==◌, ℤ, pos, negsuc, uint32, to_int32, Bytes, true, false, some, List, [], ◌∷◌, if◌then◌else◌,
  length, replicate,
}
use go_zookeeper.Constants.{no_servers_given, empty_password, state_disconnected}
use go_zookeeper.Outcome.{Outcome, done, failed, crashed, ◌>>=◌}
use go_zookeeper.Conn.{Conn}
use go_zookeeper.Conn.Connect.{set_timeouts, quotient}
use go_zookeeper.Hosts.{format_servers, string_shuffle}
use go_zookeeper.Loop.{HostProvider, connecting, Session}

-- The options of Connect but for the dialer, the logger and the host provider, which are parameters.
pub data ConnOption : Type 0 where
  with_event_callback : ConnOption
  with_max_buffer_size : ℤ → ConnOption
  with_max_conn_buffer_size : ℤ → ConnOption

-- make([]byte, n), which is a panic below 0
unfoldable pub make_bytes : ℤ → Outcome Bytes
make_bytes (pos n) = done (replicate n 0)
make_bytes (negsuc n) = crashed

unfoldable pub apply_option : ConnOption → Conn × ℤ → Outcome (Conn × ℤ)
unfolding make_bytes
apply_option with_event_callback (c, max) = done (record c { event_callback = true }, max)
apply_option (with_max_buffer_size n) (c, max) = done (c, n)
apply_option (with_max_conn_buffer_size n) (c, max) =
    make_bytes n >>= λ buf. done (record c { buf = buf }, max)

unfoldable pub apply_options : List ConnOption → Conn × ℤ → Outcome (Conn × ℤ)
unfolding apply_option
apply_options [] p = done p
apply_options (o ∷ os) p = apply_option o p >>= λ q. apply_options os q

-- The connection that Connect makes, with a buffer of `size` bytes.
unfoldable pub fresh_conn : ℕ → Conn
fresh_conn size = record {
  last_zxid = pos 0;
  session_id = pos 0;
  state = state_disconnected;
  xid = 0;
  session_timeout_ms = pos 0;
  passwd = some empty_password;
  recv_timeout = pos 0;
  ping_interval = pos 0;
  server = [];
  event_chan = [];
  event_callback = false;
  calls = [];
  creds = [];
  send_chan = [];
  requests = [];
  watches = record { table = []; next_chan = 0; delivered = [] };
  close_chan_closed = false;
  buf = replicate size 0;
  next_chan = 0;
  responses = [];
  frames = [];
}

-- int32(sessionTimeout / time.Millisecond)
unfoldable pub timeout_ms : ℤ → ℤ
timeout_ms t = to_int32 (uint32 (quotient t 1_000_000))

-- Connect with `size` = bufferSize, a timeout in nanoseconds, and the draws `rand` of stringShuffle.
unfoldable pub connect :
    {H : Type 0}
    → HostProvider H
    → (ℕ → ℕ)
    → ℕ
    → List Bytes
    → ℤ
    → List ConnOption
    → Outcome (Session H)
unfolding format_servers string_shuffle apply_options fresh_conn set_timeouts timeout_ms
connect hp rand size servers timeout options =
    if length servers == 0
    then failed no_servers_given
    else (string_shuffle rand (format_servers servers) >>= λ srvs.
        apply_options options (fresh_conn size, pos 0) >>= λ p. hp.init srvs >>= λ h. done (record {
          hosts = h;
          conn = set_timeouts (timeout_ms timeout) p.0;
          phase = connecting;
          should_quit = false;
          max_buffer_size = p.1;
          restorers = [];
        }))

-- ===== src/Loop/Order.antt =====
-- From Connect on: the phase of loop, the state of the connection, and the order of the states, in
-- zk/conn.go.
use go_zookeeper.Base.{ℕ, ◌≡◌, ℤ, Bytes, List}
use go_zookeeper.Outcome.{done}
use go_zookeeper.Loop.{HostProvider, Session}
use go_zookeeper.Loop.Run.{Move, Reach, here, later}
use go_zookeeper.Loop.Connect.{ConnOption, connect}
use go_zookeeper.Loop.States.{IsLoop, Edge}
use go_zookeeper.Loop.Moves.{Move-Turns}
use go_zookeeper.Loop.Starts.{connect-IsLoop}

module _ {H : Type 0} {hp : HostProvider H} where
  pub Reach-IsLoop : {s t : Session H} → IsLoop s → Reach hp s t → IsLoop t
  Reach-IsLoop i here = i
  Reach-IsLoop i (later r m) = (Move-Turns m (Reach-IsLoop i r)).0

  -- From Connect on, whatever the network, the server and the callers do: the state of the connection is the
  -- one of the phase of loop, in a session sendLoop has not started before resendZkAuth has returned
  -- and closeChan is closed exactly when recvLoop has ended, the buffer of recvLoop is within the limit of
  -- WithMaxBufferSize, and after the end of the goroutine of loop no request is pending and no
  -- watcher is left.
  pub connect-Reach :
      (rand : ℕ → ℕ) (size : ℕ) (servers : List Bytes) (timeout : ℤ) (os : List ConnOption)
      {s t : Session H}
      → connect hp rand size servers timeout os ≡ done s
      → Reach hp s t
      → IsLoop t
  connect-Reach rand size servers timeout os e r =
      Reach-IsLoop (connect-IsLoop hp rand size servers timeout os e) r

  -- From Connect on, each step leaves the state of the connection as it is or changes it along an edge: from
  -- disconnected to connecting, from connecting to connected or disconnected, from connected to a
  -- session, expired or disconnected, and from a session or expired to disconnected.
  pub connect-Edge :
      (rand : ℕ → ℕ) (size : ℕ) (servers : List Bytes) (timeout : ℤ) (os : List ConnOption)
      {s t u : Session H}
      → connect hp rand size servers timeout os ≡ done s
      → Reach hp s t
      → Move hp t u
      → Edge t.conn.state u.conn.state
  connect-Edge rand size servers timeout os e r m =
      (Move-Turns m (connect-Reach rand size servers timeout os e r)).1

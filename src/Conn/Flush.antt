-- ===== src/Conn/Flush.antt =====
-- flushRequests, flushUnsentRequests, and the end of a session, in zk/conn.go.
use go_zookeeper.Base.{ℕ, ℤ, List, [], ◌∷◌, ◌++◌}
use go_zookeeper.Constants.{Error}
use go_zookeeper.Conn.{Conn, Request, Response, failure}

-- for _, req := range c.requests { req.recvChan <- response{-1, err} }
unfoldable pub fail_pending : Error → List (ℤ × Request) → List (ℕ × Response)
fail_pending e [] = []
fail_pending e ((x, r) ∷ rs) = (r.recv_chan, failure e) ∷ fail_pending e rs

unfoldable pub flush_requests : Error → Conn → Conn
unfolding fail_pending
flush_requests e c = record c {
  requests = [];
  responses = c.responses ++ fail_pending e c.requests;
}

unfoldable pub fail_unsent : Error → List Request → List (ℕ × Response)
fail_unsent e [] = []
fail_unsent e (r ∷ rs) = (r.recv_chan, failure e) ∷ fail_unsent e rs

-- The loop takes requests from sendChan until the channel is empty.
unfoldable pub flush_unsent_requests : Error → Conn → Conn
unfolding fail_unsent
flush_unsent_requests e c = record c {
  send_chan = [];
  responses = c.responses ++ fail_unsent e c.send_chan;
}

-- ===== src/Broadcast/Program.antt =====
-- broadcastTest.cpp: `main`, as its own thread goes through it. What the two other threads do from
-- their start on is in Server.Threads.
pub mod Ending
use aggregation.Base.{ℕ, Bool, true, false, ◌&&◌, if◌then◌else◌}
use aggregation.Sdk.{Sdk}
use aggregation.Station.{M, pure, ◌>>=◌, ◌>>◌}
use aggregation.Camera.{init, deinit_resources}

-- Whether each call of the transport returns, or throws a `websocketpp::exception`. `io_service` is
-- whether the call `m_server.run ()` comes back at all: while the server serves, it does not.
pub record Transport : Type 0 where
  pub init_asio : Bool
  pub listen : Bool
  pub start_accept : Bool
  pub io_service : Bool

-- What becomes of the call of `run`. It comes back when `m_server.run ()` does, by a return or by an
-- exception, which the `try` block around that call catches; it throws what stands before that block.
pub data Run : Type 0 where
  back stays throws : Run

unfoldable pub run : Transport → Run
run tr = if tr.listen && tr.start_accept then (if tr.io_service then back else stays) else throws

-- How `main` ends: with `return 0`; with `std::terminate`, where an exception leaves the block of the
-- two threads and destroys them unjoined; or never, in `m_server.run ()`, or after it in `t.join ()`,
-- since the loop of that thread has no end.
pub data Exit : Type 0 where
  returns terminates serves joins : Exit

abbrev exit_of : Run → Exit
exit_of back = joins
exit_of stays = serves
exit_of throws = terminates

module _ (sdk : Sdk) (tr : Transport) where
  -- From the constructor of the server on. The handler of the exception closes the camera, and so does
  -- the end of `main`.
  unfoldable pub serve : M Exit
  unfolding run deinit_resources
  serve =
      if tr.init_asio
      then pure (exit_of (run tr))
      else do r ← deinit_resources sdk; r' ← deinit_resources sdk; pure returns

  unfoldable pub main : M Exit
  unfolding init serve
  main = do r ← init sdk; serve

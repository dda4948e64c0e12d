-- ===== src/HttpConn/Server/Worker.antt =====
-- A worker's call of `process` (http_conn.cc) on a connection of thread_pool/main.cc.
use socket_test.Common.{ℕ, Bool, some}
use socket_test.Common.Run.{Run, ok, fault, missing_return}
use socket_test.HttpConn.{HttpConn, HttpCode, no_request}
use socket_test.HttpConn.Response.Unreturned.{Answered}
use socket_test.HttpConn.Server.{Server}
use socket_test.HttpConn.Server.Count.{IsCounted, opened_after}

-- what becomes of the server by what `process_read` has returned
pub data IsWorked (o : ℕ → Bool) (fd : ℕ) : HttpCode → Run Server → Type 0 where
  waits : {s : Server} → IsCounted (opened_after (some fd) o s) s → IsWorked o fd no_request (ok s)
  undefined : {code : HttpCode} → Answered code → IsWorked o fd code (fault missing_return)

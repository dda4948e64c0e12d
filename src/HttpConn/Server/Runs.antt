-- ===== src/HttpConn/Server/Runs.antt =====
-- `m_user_count` of http_conn.cc over runs of the event loop of thread_pool/main.cc, from its start.
use socket_test.Common.{ℕ, ◌<◌, ◌≡◌, Bool, List, [], ◌∷◌, length}
use socket_test.Common.Int.{pos}
use socket_test.Common.Run.{Run, ok, fault, out_of_fuel}
use socket_test.HttpConn.{read_buffer_size}
use socket_test.HttpConn.Server.{Server, Event, max_fd, on_event}
use socket_test.HttpConn.Server.Count.{IsReported, opened_after, touched}

-- The server before its first event: no connections. What the fields of `users` hold is left open.
pub record IsStart (s : Server) : Type 0 where
  pub none_counted : s.shared.user_count ≡ pos 0
  pub sized : (fd : ℕ) → fd < max_fd → length (s.users fd).read_buf ≡ read_buffer_size

-- each event is one that the kernel may report in the state that it meets
abbrev pub AreReported : List Event → (ℕ → Bool) → Server → Type 0
AreReported [] o s = Unit
AreReported (e ∷ es) o s =
    IsReported e o s
    × ((s' : Server) → on_event e s ≡ ok s' → AreReported es (opened_after (touched e s) o s') s')

-- what a function says of the state behind a call, and otherwise the connections open before it
abbrev after_call : (Server → ℕ → Bool) → (ℕ → Bool) → Run Server → ℕ → Bool
after_call f o (ok s') = f s'
after_call f o (fault e) = o
after_call f o out_of_fuel = o

-- the connections that are open behind the events
abbrev pub opened_by : List Event → (ℕ → Bool) → Server → ℕ → Bool
opened_by [] o s = o
opened_by (e ∷ es) o s =
    after_call (λ s'. opened_by es (opened_after (touched e s) o s') s') o (on_event e s)

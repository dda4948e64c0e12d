-- ===== src/Tests/Serving.antt =====
-- Runs of the event loop of thread_pool/main.cc.
use socket_test.Common.{ℕ, Bool, true, false, List, [], ◌∷◌, some}
use socket_test.Common.Array
use socket_test.Common.Int.{pos}
use socket_test.HttpConn.{HttpConn, init}
use socket_test.HttpConn.Server.{Server, Event, connection, hangup, put}
use socket_test.Tests.Http.{holding}

-- what `new` may leave in an entry
abbrev unused : HttpConn
unused = record (holding []) { sockfd = some 3 }

-- a server with the one connection at descriptor 7
abbrev serving : HttpConn → Server
serving c = record {
  shared = record { user_count = pos 1; calls = [] };
  users = Array.update (λ fd. unused) 7 c;
  appended = [];
}

abbrev none_open : ℕ → Bool
none_open fd = false

abbrev seven_open : ℕ → Bool
seven_open = Array.update none_open 7 true

-- before the first event
abbrev fresh : Server
fresh = record {
  shared = record { user_count = pos 0; calls = [] };
  users = λ fd. unused;
  appended = [];
}

-- a client comes and goes
abbrev visit : List Event
visit = connection 7 80 ∷ hangup 7 ∷ []

abbrev visited : Server
visited = put fresh 7 (init 7 80 (fresh.shared, fresh.users 7))

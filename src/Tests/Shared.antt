-- ===== src/Tests/Shared.antt =====
-- The server of multi process/shm_test.cc and its children on concrete inputs.
use socket_test.Common.{ℕ, ◌≡◌, refl, true, false, List, [], ◌∷◌, none, some, arith, replicate}
use socket_test.Common.Run.{fault, out_of_fuel, out_of_bounds, Ends, ends}
use socket_test.HttpConn.Recv.{bytes, again}
use socket_test.SharedChat.{
  Server, create, Arrival, sigchld, sigterm, connection, signals, notice, Waited, interrupted,
  ready, on_signal, serve, user_at, set_process, register, enter, on_connection,
}
use socket_test.SharedChat.Busy.{possible_signals, possible, all_possible, rounds_possible, IsBusy}
use socket_test.SharedChat.Stop.{serve-IsBusy}
use socket_test.SharedChat.Child.{
  Child, write_block, from_client, child_event, ChildWaited, run_child,
}
use socket_test.SharedChat.Child.{
  notice as child_notice, ready as child_ready, terminated as child_terminated,
}
use socket_test.SharedChat.Block.{
  has_block, all_have_block, rounds_have_block, IsOwnBlock, run_child-IsOwnBlock,
}

abbrev started : Server
started = create (λ i. record { address = 0; connfd = 0; pid = 0; pipefd = 0 }) none

-- a client with the pid 50
abbrev arrival : Arrival
arrival = record { accepted = some (9, 70); pipe = some 10; forked = some 50 }

first_client : Ends IsBusy (on_connection arrival started)
unfolding create on_connection enter register user_at set_process
first_client =
    ends (record { running = refl; some_user = omega arith; room = omega arith; no_zero = refl })

abbrev one_client : Server
one_client = record started { user_count = 1 }

one_client-IsBusy : IsBusy one_client
unfolding create
one_client-IsBusy = record {
  running = refl;
  some_user = omega arith;
  room = omega arith;
  no_zero = refl;
}

-- SIGTERM, then the end of the client's process, and another client
abbrev rounds : List Waited
rounds =
    ready (signals (sigterm ∷ sigchld (50 ∷ []) true ∷ []) ∷ notice 10 (some 0) ∷ [])
    ∷ interrupted
    ∷ ready
        (connection (record { accepted = some (12, 71); pipe = some 13; forked = some 51 }) ∷ [])
    ∷ []

rounds-possible : rounds_possible 3 rounds ≡ true
unfolding rounds_possible all_possible possible possible_signals
rounds-possible = refl

serve-IsBusy_example :
    Ends IsBusy (serve 3 rounds one_client)
    × ((n : ℕ) (ended : List ℕ) → on_signal n (sigchld ended false) one_client ≡ out_of_fuel)
serve-IsBusy_example = serve-IsBusy 3 rounds one_client rounds-possible one_client-IsBusy

abbrev fresh_child : Child
fresh_child = record { stop = false; share_mem = replicate 5120 0; sent = [] }

abbrev child_rounds : List ChildWaited
child_rounds =
    child_ready (from_client (bytes (b'h' ∷ b'i' ∷ [])) ∷ child_notice 2 ∷ [])
    ∷ child_terminated
    ∷ []

child_rounds-have_block : rounds_have_block child_rounds ≡ true
unfolding rounds_have_block all_have_block has_block
child_rounds-have_block = refl

run_child-IsOwnBlock_example :
    Ends
      (λ s'. IsOwnBlock 4 fresh_child.share_mem s'.share_mem)
      (run_child 4 child_rounds fresh_child)
run_child-IsOwnBlock_example =
    run_child-IsOwnBlock 4 child_rounds fresh_child (omega arith) child_rounds-have_block

-- The sixth client is served by a child that has no block.
sixth_client : child_event 5 (from_client again) fresh_child ≡ fault out_of_bounds
unfolding child_event write_block
sixth_client = refl

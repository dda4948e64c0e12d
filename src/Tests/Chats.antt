-- ===== src/Tests/Chats.antt =====
-- The chat server of Chat/chat_server.cc on concrete inputs.
use socket_test.Common.{ℕ, ◌≡◌, refl, true, false, [], ◌∷◌, none, some, arith}
use socket_test.Common.Array
use socket_test.Common.Int.{pos, ◌-ℤ◌}
use socket_test.Common.Run.{ok, fault, out_of_bounds}
use socket_test.Chat.{Mask, Chat, Answer, peer_closed, create, serve, leave, at, entry, user_index}
use socket_test.Chat.Bounds.{serve-out_of_bounds}

abbrev quiet : Mask
quiet = record {
  pollin = false;
  pollout = false;
  pollrdhup = false;
  pollerr = false;
  others = false;
}

abbrev started : Chat
started = create 3 70 quiet λ fd. record { address = 0; write_buf = none; buf = [] }

abbrev nothing : ℕ → Answer
nothing k = record { accepted = none; received = peer_closed }

serve-out_of_bounds_example :
    serve 20 nothing (some (quiet ∷ []) ∷ none ∷ []) started ≡ fault out_of_bounds
unfolding create
serve-out_of_bounds_example =
    serve-out_of_bounds 20 nothing (quiet ∷ []) (none ∷ []) started refl (omega arith)

-- a client in the first place, when it has left
abbrev leaving : Chat
leaving = record started {
  fds =
      (record { fd = some 3; events = quiet; revents = quiet })
      ∷ (record { fd = some 8; events = quiet; revents = record quiet { pollrdhup = true } })
      ∷ [];
  user_counter = pos 1;
}

-- The only client that leaves stays in its entry, which is handled again.
left_in_table :
    leave 1 leaving
    ≡ ok (
      record leaving {
        closed = 8 ∷ [];
        user_counter = pos 0;
        users = Array.update leaving.users 8 (leaving.users 8);
      },
      true,
    )
unfolding leave at entry user_index create ◌-ℤ◌
left_in_table = refl

-- ===== src/Tests/Responses.antt =====
-- Runs of the response writer of thread_pool/http_conn.cc.
use socket_test.Common.{
  ℕ, ◌<◌, ◌≡◌, true, false, [], ◌∷◌, ◌++◌, map, none, some, arith, replicate, length-replicate,
}
use socket_test.Common.Int.{pos}
use socket_test.Common.CString.{codes}
use socket_test.Common.Run.{ok, fault, missing_return, Ends}
use socket_test.HttpConn.{
  HttpConn, Shared, unset, get, no_resource, check_state_requestline, read_buffer_size,
  write_buffer_size, filename_len,
}
use socket_test.HttpConn.Response.{add_response, process_write, sent, error, write, write_done}
use socket_test.HttpConn.Response.Written.{IsWritable, IsAppended, add_response-IsAppended}
use socket_test.HttpConn.Response.Unreturned.{page_404, process_write-missing_return}
use socket_test.HttpConn.Response.Sending.{write-half}

-- a connection with so many bytes of a response
abbrev pub answering : ℕ → HttpConn
answering n = record {
  sockfd = some 7;
  address = 0;
  read_buf = replicate read_buffer_size 0;
  read_idx = 0;
  checked_idx = 0;
  start_line = 0;
  write_buf = replicate write_buffer_size 0;
  write_idx = n;
  check_state = check_state_requestline;
  method = get;
  real_file = replicate filename_len 0;
  url = none;
  version = none;
  host = none;
  content_length = pos 0;
  linger = true;
  file_address = some 4096;
  file_stat = record { other_read = true; is_dir = false; st_size = 500 };
  iv0 = record { iov_base = unset; iov_len = 0 };
  iv1 = record { iov_base = unset; iov_len = 0 };
  iv_count = 0;
}

pub answering-IsWritable : (n : ℕ) → n < write_buffer_size → IsWritable (answering n)
answering-IsWritable n h = record { sized = length-replicate {A = ℕ} 1024 0; room = h }

add_response-IsAppended_example :
    Ends
      (IsAppended (answering 1018) (codes "\r\n\r\n"))
      (add_response (answering 1018) (codes "\r\n\r\n"))
add_response-IsAppended_example =
    add_response-IsAppended (answering 1018) (codes "\r\n\r\n")
      (answering-IsWritable 1018 (omega arith))

process_write-missing_return_example :
    process_write no_resource (answering 0) ≡ fault missing_return
process_write-missing_return_example =
    process_write-missing_return no_resource (answering 0) page_404
      (answering-IsWritable 0 (omega arith))

abbrev no_calls : Shared
no_calls = record { user_count = pos 1; calls = [] }

-- 60 of 100 bytes are sent, and the call that would report an error is never made
write-half_example :
    (write (map sent (20 ∷ []) ++ sent 40 ∷ error ∷ []) (no_calls, answering 100)
      ≡ ok (write_done (no_calls, answering 100)))
    × ((write_done (no_calls, answering 100)).1 ≡ true)
    × ((write_done (no_calls, answering 100)).0.1.file_address ≡ none)
    × ((write_done (no_calls, answering 100)).0.1.write_idx ≡ 0)
write-half_example =
    write-half (20 ∷ []) 40 (error ∷ []) no_calls (answering 100) (omega arith) (omega arith)

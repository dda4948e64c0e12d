-- ===== src/Tests/Echo.antt =====
-- A header line of thread_pool/http_conn.cc, written and read back.
use socket_test.Common.{◌≡◌, refl, true, [], ◌∷◌, ◌++◌, arith}
use socket_test.Common.Int.{pos}
use socket_test.Common.CString.{codes, decimal}
use socket_test.Common.Run.{ok}
use socket_test.HttpConn.{HttpConn, line_ok, no_request}
use socket_test.HttpConn.Lines.{parse_line}
use socket_test.HttpConn.Request.{string_at, parse_headers}
use socket_test.HttpConn.Response.{add_response, add_content_length}
use socket_test.HttpConn.Response.Written.{written}
use socket_test.HttpConn.Recv.{write_at}
use socket_test.HttpConn.Echo.{add_content_length-parse_headers}
use socket_test.Tests.Responses.{answering, answering-IsWritable}

-- the reader, which has received the line and the start of the next one
abbrev received : HttpConn
received = record (answering 0) { read_buf = codes "Content-Length: 305\r\nHost"; read_idx = 25 }

-- the writer, which has written the line
abbrev answered : HttpConn
answered = record (answering 0) {
  write_buf = write_at (answering 0).write_buf 0 (codes "Content-Length: 305\r\n" ++ 0 ∷ []);
  write_idx = 21;
}

written_line : add_content_length (answering 0) (pos 305) ≡ ok (answered, true)
unfolding add_content_length add_response decimal write_at
written_line = refl

sent_line : written (answering 0) ++ string_at received 0 ≡ written answered ++ codes "Host"
unfolding write_at
sent_line = refl

add_content_length-parse_headers_example :
    ((parse_line received).1 ≡ line_ok)
    × (parse_headers (parse_line received).0 0
        ≡ (record (parse_line received).0 { content_length = pos 305 }, no_request))
add_content_length-parse_headers_example =
    add_content_length-parse_headers (answering 0) answered received 305 (codes "Host")
      (omega arith) (answering-IsWritable 0 (omega arith)) written_line sent_line (omega arith)

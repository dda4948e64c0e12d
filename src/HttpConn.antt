-- ===== src/HttpConn.antt =====
-- thread_pool/http_conn.h and http_conn.cc: one HTTP connection of the thread-pool server, its
-- static members (`Shared`) and the descriptor helpers. The children model the methods.
-- Bytes are numbers below 256, pointers into `m_read_buf` are offsets, a null pointer is `none`, and
-- so is the descriptor -1. Calls into the kernel are recorded in `calls`; what they return is an
-- argument.
pub mod Lines
pub mod Recv
pub mod Request
pub mod Response
pub mod Echo
pub mod Process
pub mod Server
use socket_test.Common.{
  ℕ, ◌+◌, Bool, true, false, List, [], ◌∷◌, ◌++◌, Option, none, some, replicate,
}
use socket_test.Common.Int.{ℤ, pos, negsuc, ◌+ℤ◌, ◌-ℤ◌}

abbrev pub filename_len : ℕ
filename_len = 200

abbrev pub read_buffer_size : ℕ
read_buffer_size = 2048

abbrev pub write_buffer_size : ℕ
write_buffer_size = 1024

pub data Method : Type 0 where
  get post head put delete trace options connect patch : Method

pub data CheckState : Type 0 where
  check_state_requestline check_state_header check_state_content : CheckState

pub data HttpCode : Type 0 where
  no_request get_request bad_request no_resource forbidden_request : HttpCode
  file_request internal_error closed_connection : HttpCode

pub data LineStatus : Type 0 where
  line_ok line_bad line_open : LineStatus

-- the parts of `struct stat` that are read
pub record Stat : Type 0 where
  pub other_read : Bool
  pub is_dir : Bool
  pub st_size : ℕ

pub data IoBase : Type 0 where
  unset : IoBase
  write_buffer : IoBase
  mapped_file : Option ℕ → IoBase

pub record Iovec : Type 0 where
  pub iov_base : IoBase
  pub iov_len : ℕ

pub record HttpConn : Type 0 where
  pub sockfd : Option ℕ
  pub address : ℕ
  pub read_buf : List ℕ
  pub read_idx : ℕ
  pub checked_idx : ℕ
  pub start_line : ℕ
  pub write_buf : List ℕ
  pub write_idx : ℕ
  pub check_state : CheckState
  pub method : Method
  pub real_file : List ℕ
  pub url : Option ℕ
  pub version : Option ℕ
  pub host : Option ℕ
  pub content_length : ℤ
  pub linger : Bool
  pub file_address : Option ℕ
  pub file_stat : Stat
  pub iv0 : Iovec
  pub iv1 : Iovec
  pub iv_count : ℕ

pub data Interest : Type 0 where
  epollin epollout : Interest

pub data Call : Type 0 where
  epoll_add : ℕ → Bool → Call
  epoll_del : ℕ → Call
  epoll_mod : Option ℕ → Interest → Call
  reuse_address nonblock closes : ℕ → Call
  unmaps : ℕ → ℕ → Call

-- the static members, and what has been asked of the kernel so far
pub record Shared : Type 0 where
  pub user_count : ℤ
  pub calls : List Call

unfoldable pub call : Call → Shared → Shared
call c w = record w { calls = w.calls ++ c ∷ [] }

unfoldable pub addfd : ℕ → Bool → Shared → Shared
unfolding call
addfd fd one_shot w = call (nonblock fd) (call (epoll_add fd one_shot) w)

unfoldable pub removefd : ℕ → Shared → Shared
unfolding call
removefd fd w = call (closes fd) (call (epoll_del fd) w)

unfoldable pub modfd : Option ℕ → Interest → Shared → Shared
unfolding call
modfd fd ev w = call (epoll_mod fd ev) w

-- `init()`
unfoldable pub reset : HttpConn → HttpConn
reset c = record c {
  check_state = check_state_requestline;
  linger = false;
  method = get;
  url = none;
  version = none;
  content_length = pos 0;
  host = none;
  start_line = 0;
  checked_idx = 0;
  read_idx = 0;
  write_idx = 0;
  read_buf = replicate read_buffer_size 0;
  write_buf = replicate write_buffer_size 0;
  real_file = replicate filename_len 0;
}

-- `init(int sockfd, const sockaddr_in &addr)`
unfoldable pub init : ℕ → ℕ → Shared × HttpConn → Shared × HttpConn
unfolding reset addfd call
init fd addr (w, c) =
    let w' = addfd fd true (call (reuse_address fd) w) in
    (
      record w' { user_count = w'.user_count +ℤ pos 1 },
      reset (record c { sockfd = some fd; address = addr }),
    )

-- `close_conn()`; every call in the sources leaves `real_close` at its default, true.
unfoldable pub close_conn : Shared × HttpConn → Shared × HttpConn
unfolding removefd
close_conn (w, c) = elim c.sockfd [
  | none ↦ (w, c)
  | some fd ↦
      let w' = removefd fd w in
      (record w' { user_count = w'.user_count -ℤ pos 1 }, record c { sockfd = none })
]

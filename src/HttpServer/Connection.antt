-- ===== src/HttpServer/Connection.antt =====
-- One connection of http_server/server.c: its `epoll_io_t`, `handle_in`, `handle_out`,
-- `send_data` and `reset_epoll`. What the operating system answers stands in an `Os`.
pub mod Phases
pub mod Body
pub mod Answer
use network_system_hw.Base.{
  ℕ, ◌+◌, ◌-◌, ◌%◌, ◌^◌, Bool, true, false, ◌&&◌, List, [], ◌∷◌, ◌++◌, Option, none, some,
  if◌then◌else◌, ◌==◌, ◌>>=◌, length, take, Bytes, codes, str_eq, cstr, copy,
}
use network_system_hw.HttpServer.Config.{Config}
use network_system_hw.HttpServer.Request.{Request, parse_http_req, post, err_not_found}
use network_system_hw.HttpServer.Response.{
  ResponseHeader, err_status_code, err_resp, build_http_resp_header, append_post_reponse,
}

-- The event that the connection is registered for.
pub data Interest : Type 0 where
  epollin epollout : Interest

pub record Io : Type 0 where
  pub connfd : ℕ
  pub readfd : ℕ
  pub timestamp : ℕ
  pub keepalive_time : ℕ
  pub req : Option Request
  pub buf : Option Bytes
  pub size : ℕ

-- The `epoll_io_t`, its registration, and what the handlers have done to the outside: the bytes
-- handed to the socket and the files closed, in order.
pub record Connection : Type 0 where
  pub io : Io
  pub interest : Interest
  pub sent : Bytes
  pub closed : List ℕ

-- `send`: a number of bytes, EAGAIN or EWOULDBLOCK, or another error.
pub data SendResult : Type 0 where
  wrote : ℕ → SendResult
  would_block : SendResult
  failed : SendResult

-- `recv`: some bytes, the end of the stream, or an error.
pub data RecvResult : Type 0 where
  received : Bytes → RecvResult
  hung_up : RecvResult
  recv_failed : RecvResult

-- What the calls of one `handle_out` answer: `time`, the text of `format_current_time`, `open`
-- (no descriptor for -1), `stat` (the size of a file that `open` has found), `read` (nothing for
-- -1) and `send`.
pub record Os : Type 0 where
  pub time : ℕ
  pub date : Bytes
  pub open_file : Bytes → Option ℕ
  pub file_size : Bytes → Option ℕ
  pub read_file : Option Bytes
  pub send_result : SendResult

unfoldable pub reset_epoll : ℕ → Connection → Connection
reset_epoll time c = record c {
  io = record (c.io) { readfd = 0; req = none; buf = none; timestamp = time };
  interest = epollin;
  closed = if c.io.readfd == 0 then c.closed else c.closed ++ (c.io.readfd ∷ []);
}

-- The branch behind `send(…) != -1`, where the buffer is freed already.
pub after_send : ℕ → Connection → Bool → Connection
unfolding reset_epoll
after_send time c true = record c { interest = epollout }
after_send time c false = reset_epoll time c

send_outcome : ℕ → Connection → Bytes → Bool → SendResult → Connection
unfolding after_send
send_outcome time c buf more (wrote n) =
    after_send time
      (record c { io = record (c.io) { buf = none }; sent = c.sent ++ take n (take c.io.size buf) })
      more
send_outcome time c buf more would_block = c
send_outcome time c buf more failed =
    reset_epoll time (record c { io = record (c.io) { keepalive_time = 0 } })

-- `send` of the first `io_data->size` bytes of `buf`.
unfoldable pub send_data : Os → Connection → Bytes → Bool → Connection
unfolding send_outcome
send_data os c buf more =
    send_outcome os.time (record c { io = record (c.io) { buf = some buf } }) buf more
      os.send_result

-- The two `send_data` calls of the handlers set `io_data->size` first.
abbrev pub send_sized : Os → Connection → Bytes → ℕ → Bool → Connection
send_sized os c buf size more =
    send_data os (record c { io = record (c.io) { size = size } }) buf more

-- `size_of_file`, as the word of an `int64_t`: -1 where `stat` fails.
abbrev pub size_word : Option ℕ → ℕ
size_word none = 2 ^ 64 - 1
size_word (some n) = n

-- `resp_header` for an open file; the POST data and its markup add to the length.
abbrev pub file_header : Os → Request → Bytes → ℕ → ResponseHeader
file_header os req path status = record {
  version = req.version;
  status_code = status;
  keep_alive = req.keep_alive;
  content_length =
      (size_word (os.file_size path)
        + (if req.method == post then 29 + length req.post_data else 0))
      % 2 ^ 64;
  content_type = req.content_type;
}

-- `resp_header` for an error.
abbrev pub error_header : Request → ℕ → Bytes → ResponseHeader
error_header req status body = record {
  version = req.version;
  status_code = status;
  keep_alive = req.keep_alive;
  content_length = length body;
  content_type = codes "text/html";
}

-- The file is open: the header of a 200 answer.
answer_file : Os → Connection → Request → Bytes → ℕ → Option Connection
answer_file os c req path fd = do
  status ← err_status_code 0
  buf ← copy 4096 (build_http_resp_header os.date (file_header os req path status))
  let c' = record c { io = record (c.io) { readfd = fd } }
  some (send_sized os c' buf (length buf) true)

-- The whole answer to a request with an error code.
answer_error : Os → Connection → Request → Option Connection
answer_error os c req = do
  status ← err_status_code req.error_code
  body ← err_resp req.error_code
  buf ← copy 4096 (build_http_resp_header os.date (error_header req status body) ++ body)
  some (send_sized os c buf (length buf) false)

-- After `open`: a missing file sets `ERR_NOT_FOUND` in the request that the connection holds.
answer_opened : Os → Connection → Request → Bytes → Option ℕ → Option Connection
unfolding answer_file answer_error
answer_opened os c req path none =
    let req' = record req { error_code = err_not_found } in
    answer_error os (record c { io = record (c.io) { req = some req' } }) req'
answer_opened os c req path (some fd) = answer_file os c req path fd

-- No file is open yet: `fd == 0`.
unfoldable pub answer : Config → Os → Connection → Request → Option Connection
unfolding answer_opened
answer conf os c req =
    if req.error_code == 0
    then (copy 4096 (conf.root ++ req.uri) >>= λ path.
        answer_opened os c req path (os.open_file path))
    else answer_error os c req

-- `read` gave nothing more.
finish : Os → Connection → Request → Option Connection
finish os c req =
    if req.method == post && str_eq req.content_type (codes "text/html")
    then (append_post_reponse [] req.post_data >>= λ buf.
        some (send_sized os c buf (length buf) false))
    else some (reset_epoll os.time c)

-- A file is open. A `read` of -1 is taken for a count of bytes, and `send` reads past the buffer.
unfoldable pub stream : Os → Connection → Request → Option Bytes → Option Connection
unfolding finish
stream os c req none = none
stream os c req (some []) = finish os c req
stream os c req (some (b ∷ bs)) = some (send_sized os c (b ∷ bs) (length (b ∷ bs)) true)

handle_fresh : Config → Os → Connection → Option Request → Option Connection
unfolding answer stream
handle_fresh conf os c none = none
handle_fresh conf os c (some req) =
    if c.io.readfd == 0 then answer conf os c req else stream os c req os.read_file

handle_buffer : Config → Os → Connection → Option Bytes → Option Connection
unfolding send_data handle_fresh
handle_buffer conf os c (some buf) = some (send_data os c buf false)
handle_buffer conf os c none = handle_fresh conf os c c.io.req

unfoldable pub handle_out : Config → Os → Connection → Option Connection
unfolding handle_buffer
handle_out conf os c = handle_buffer conf os c c.io.buf

-- `recv` fills a zeroed array of 4096 bytes, which `parse_http_req` reads up to its first NUL.
unfoldable pub handle_in : Config → Connection → RecvResult → Option Connection
handle_in conf c hung_up = some c
handle_in conf c recv_failed = some c
handle_in conf c (received bytes) = do
  text ← copy 4096 (cstr bytes)
  req ← parse_http_req text conf
  some (record c {
    io = record (c.io) {
      req = some req;
      keepalive_time = if req.keep_alive == 0 then 0 else conf.keepalive_time;
    };
    interest = epollout;
  })

-- ===== src/Lib.antt =====
-- A model of the course programs of this repository, and what it shows of them.
--
-- The parts, and where they are modelled:
--
-- Strutil: the string helpers of http_server/strutil.c. Dfc/Strutil: those of dfc/strutil.c, which
-- is the same file but for `split`. Strutil/Trim and Strutil/Tokens hold the proofs.
-- HttpServer/Config: `config_t`, `init_config` and `get_content_type` of http_server/config.c, with
-- `get_file_extension` of http_server/util.c.
-- HttpServer/Request: `http_req_t` and `parse_http_req` of http_server/http.c.
-- HttpServer/Response: the tables, `build_http_resp_header` and `append_post_reponse` of
-- http_server/http.c.
-- HttpServer/Connection: `epoll_io_t`, `handle_in`, `handle_out`, `send_data` and `reset_epoll` of
-- http_server/server.c. HttpServer/EventLoop: the loop of `main` over many connections, by
-- single events and by rounds of `epoll_wait`. HttpServer/Startup: the set-up of `main` in front of
-- that loop.
-- Udp/Packet: the packets of udp/util.h and their builders. Udp/Transfer: `send_file` and
-- `receive_file` of udp/util.c. Udp/Commands: the command loops of udp/server.c and udp/client.c
-- with `parse_line`, `list_dir` and `set_received_filename` of udp/util.c. Udp/Serving: `main` of
-- udp/server.c, its requests being those its own `recvfrom` takes.
-- Dfc/Config: both configurations of dfc/config.c, with the `split` of dfc/strutil.c.
-- Dfc/Packet: the packets of dfc/trans.h and their builders. Dfc/Mask and Dfc/Transfer: the
-- masking by the user's key, `send_file` and `receive_file` of dfc/trans.c. Dfc/Placement: the loops
-- of dfc/client.c that give each server its parts of a file and retry a get. Dfc/Server:
-- `check_user` and `connection_handler` of dfc/server.c, with `list_dir`, `set_path` and
-- `create_dir`;
-- Dfc/Server/Loop: its loop over requests, with the files it stores. Dfc/Server/Threads and
-- Dfc/Server/Startup: its `main`, with the threads of the connections. Dfc/Partition: the names of the
-- parts, their size, and `merge_partitions` and `delete_partitions` of dfc/util.c. Dfc/Client: the
-- threads of dfc/client.c, `handle_put`, `handle_get`, `handle_ls` and `handle_mkdir`, over a record
-- `Peer` of what the other end answers, which Dfc/Server/Loop fills. Dfc/Session: the command loop
-- of `main` in dfc/client.c, which starts the threads by Dfc/Placement, runs them by Dfc/Client and
-- puts the parts together by Dfc/Partition. Dfc/Session/Startup: its start, which connects the
-- servers, and its lines. Dfc/Listing: its listing.
-- Proxy: proxy/proxy.c and proxy/log.c, one connection from its request to its log line.
--
-- Tests: runs at concrete inputs, and each theorem at an input that meets its hypotheses.
--
-- How code and model correspond. A C string is the list of the bytes in front of its NUL, a packet or
-- a receive buffer the list of all its bytes. A struct is a record with the source's fields, and a
-- function that changes it returns the new one. A copy into an array is checked against the array's
-- size: `none`, in a function into Option, is an access past an array, which C leaves undefined and
-- the code mostly does not check, and nothing is claimed of a run after it. The `msg` of a packet of
-- dfc counts with the padding behind it. Numbers are natural; fixed widths are written as remainders.
-- What the system answers (accept, recv, send, open, stat, read, the clock) is an argument of the
-- handler that asks, so every theorem holds for all its answers. In the event loop the order of
-- events is any. Where the client of dfc and its server are put together, each `recv` brings one
-- whole packet; elsewhere it brings any bytes. The files of a directory are a map from paths as they
-- are written, so theorems on which files change ask for paths without a component "..".
--
-- Loops are recursions on lists. Five take fuel: the rounds of a get, in Dfc/Placement/Retry and in
-- Dfc/Session, take one more than servers are up, which is enough since each retry gives one up, and
-- a loop that uses the fuel up is told apart as `unfinished`; the rounds of the two `send_file`s take
-- the length of the file plus one, which is enough since a round before the last takes a byte or
-- more, and give `none` when it is used up, so that a result means that the loop has ended; and the
-- printing of a decimal number takes the number plus one.
--
-- Not modelled: the socket set-up of proxy/proxy.c and udp/client.c, allocation and the leaks of
-- `split`, the format of dates, diagnostics on the terminal, and the served files under
-- http_server/www. The threads of a command of dfc/client.c run one behind the other: each has its own connection, and
-- the files of its own parts.
pub mod Base
pub mod Strutil
pub mod HttpServer
pub mod Udp
pub mod Dfc
pub mod Proxy
mod Tests

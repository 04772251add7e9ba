-- ===== src/Tests/Answers.antt =====
-- The connections and the event loop of http_server/server.c
use network_system_hw.Base.{
  ◌+◌, ◌≤◌, ◌<◌, ◌≡◌, refl, List, [], ◌∷◌, ◌++◌, none, some, length, Bytes, codes, str_eq, arith,
  decimal, print_int, cstr, inl,
}
use network_system_hw.Strutil.{strip, split, split_first, lower, remove_endl}
use network_system_hw.HttpServer.Config.{get_content_type}
use network_system_hw.HttpServer.Request.{Request, parse_http_req}
use network_system_hw.HttpServer.Response.{build_http_resp_header}
use network_system_hw.HttpServer.Connection.{
  epollin, epollout, Connection, Os, received, wrote, would_block, handle_in, handle_out, stream,
  send_data, file_header,
}
use network_system_hw.HttpServer.Connection.Phases.{IsGood, handle_in-IsGood, handle_out-IsGood}
use network_system_hw.HttpServer.Connection.Body.{serve, gather, post_page, tail_of}
use network_system_hw.HttpServer.Connection.Answer.{
  path_of, header_of, Answers, serve-whole, serve-post_short, serve-blocked,
}
use network_system_hw.HttpServer.EventLoop.{
  epoll_size_max, Server, started, incoming, fresh, handle_accept, on_event, stay, next,
}
use network_system_hw.HttpServer.EventLoop.Reachable.{IsSound, Reach-IsSound, Reach-Grows}
use network_system_hw.Tests.Configs.{conf}
use network_system_hw.Tests.Requests.{text, request}

abbrev page : Request
page = record {
  method = 2;
  version = 11;
  keep_alive = 1;
  error_code = 0;
  host = codes "h";
  uri = codes "/a.html";
  content_type = codes "text/html";
  post_data = codes "x=1";
}

abbrev script : Request
script = record page { uri = codes "/a.js"; content_type = codes "text/js" }

abbrev writing : Request → Connection
writing req =
    let c : Connection = fresh 7 in
    record c { io = record (c.io) { req = some req }; interest = epollout }

-- The file has five bytes; `read` gives them in two parts.
abbrev first : Request → Os
first req =
    let os : Os = record {
      time = 100;
      date = codes "now";
      open_file = λ path. some 9;
      file_size = λ path. some 5;
      read_file = none;
      send_result = would_block;
    } in
    record os { send_result = wrote (length (header_of conf os req)) }

abbrev reading : Bytes → Os
reading bytes = record (first page) { read_file = some bytes; send_result = wrote (length bytes) }

abbrev last : Request → Os
last req = record (first page) { read_file = some []; send_result = wrote (length (post_page req)) }

abbrev parts : List Os
parts = reading (codes "<p>") ∷ reading (codes "</") ∷ []

answers :
    (req : Request)
    → req.error_code ≡ 0
    → length (path_of conf req) < 4096
    → length (header_of conf (first req) req) < 4096
    → length (post_page req) < 1024
    → Answers conf req 9 (first req) parts (last req) (writing req)
answers req zero path header posted = record {
  waiting = record { req_is = refl; buf_is = refl; file_is = refl };
  no_error = zero;
  opened = omega arith;
  opens = refl;
  path_fits = path;
  header_fits = header;
  header_sent = refl;
  parts_sent = (
    record { head = b'<'; rest = codes "p>"; reads = refl; sends = refl },
    (record { head = b'<'; rest = codes "/"; reads = refl; sends = refl }, tt),
  );
  ends = refl;
  post_fits = posted;
  post_sent = refl;
}

page_header : length (header_of conf (first page) page) < 4096
unfolding build_http_resp_header print_int decimal
page_header = omega arith

serve-whole_example :
    (c' : Connection) × (body : Bytes) × (serve conf
        (first page ∷ (parts ++ (last page ∷ [])))
        (writing page)
      ≡ some c')
    × (c'.sent ≡ (writing page).sent ++ (header_of conf (first page) page ++ body))
    × (body ≡ gather parts ++ tail_of page)
    × (length body ≡ (file_header (first page) page (path_of conf page) 200).content_length)
    × (print_int (file_header (first page) page (path_of conf page) 200).content_length
        ≡ decimal (length body))
    × (c'.interest ≡ epollin)
    × (c'.io.readfd ≡ 0)
    × (c'.closed ≡ (writing page).closed ++ (9 ∷ []))
serve-whole_example =
    serve-whole conf page 9 (first page) parts (last page) (writing page)
      (answers page refl (omega arith) page_header (omega arith)) (λ e. refl) refl (omega arith)

script_header : length (header_of conf (first script) script) < 4096
unfolding build_http_resp_header print_int decimal
script_header = omega arith

serve-post_short_example :
    (c' : Connection) × (body : Bytes) × (serve conf
        (first script ∷ (parts ++ (last script ∷ [])))
        (writing script)
      ≡ some c')
    × (c'.sent ≡ (writing script).sent ++ (header_of conf (first script) script ++ body))
    × (length body + (29 + length script.post_data)
        ≡ (file_header (first script) script (path_of conf script) 200).content_length)
    × (print_int (file_header (first script) script (path_of conf script) 200).content_length
        ≡ decimal (length body + (29 + length script.post_data)))
    × (c'.interest ≡ epollin)
serve-post_short_example =
    serve-post_short conf script 9 (first script) parts (last script) (writing script)
      (answers script refl (omega arith) script_header (omega arith)) refl (ground arith) refl
      (omega arith)

abbrev open_page : Connection
open_page = let c = writing page in record c { io = record (c.io) { readfd = 9 } }

abbrev blocked : Os
blocked = record (reading (codes "<p>")) { send_result = would_block }

serve-blocked_example :
    (c' : Connection) × (serve conf (blocked ∷ reading (codes "<p>") ∷ []) open_page ≡ some c')
    × (c'.sent ≡ open_page.sent ++ codes "<p>")
    × (c'.closed ≡ open_page.closed ++ (9 ∷ []))
    × (c'.interest ≡ epollin)
    × (c'.io.req ≡ none)
serve-blocked_example =
    serve-blocked conf page 9 open_page blocked (reading (codes "<p>")) (codes "<p>")
      (record { req_is = refl; buf_is = refl; file_is = refl }) (omega arith) (cc) refl refl refl

blocked_part :
    handle_out conf blocked open_page
    ≡ some (record open_page { io = record (open_page.io) { buf = some (codes "<p>"); size = 3 } })
unfolding handle_out stream send_data
blocked_part = refl

handle_out-IsGood_example :
    IsGood (record open_page { io = record (open_page.io) { buf = some (codes "<p>"); size = 3 } })
handle_out-IsGood_example =
    handle_out-IsGood conf blocked open_page refl (page, refl, omega arith, inl refl) blocked_part

abbrev asked : Connection
asked =
    let c : Connection = fresh 7 in
    record c { io = record (c.io) { req = some request; keepalive_time = 0 }; interest = epollout }

ask : handle_in conf (fresh 7) (received (text ++ (0 ∷ 0 ∷ []))) ≡ some asked
unfolding handle_in cstr parse_http_req strip split split_first lower remove_endl str_eq
    get_content_type
ask = refl

handle_in-IsGood_example : IsGood asked
handle_in-IsGood_example =
    handle_in-IsGood conf (fresh 7) (received (text ++ (0 ∷ 0 ∷ []))) refl (refl, refl, refl) ask

abbrev one : Server
one = record { events_count = 2; connections = fresh 7 ∷ [] }

accepted : on_event conf started (incoming (some 7)) ≡ some one
unfolding on_event handle_accept
accepted = refl

Reach-IsSound_example : IsSound one
Reach-IsSound_example = Reach-IsSound conf (next (incoming (some 7)) stay tt accepted)

abbrev full : Server
full = record { events_count = 1024; connections = [] }

refused : on_event conf full (incoming (some 7)) ≡ some full
unfolding on_event
refused = refl

Reach-Grows_example :
    (full.events_count ≤ full.events_count)
    × (length full.connections ≤ length full.connections)
    × (epoll_size_max ≤ full.events_count
        → (full.events_count ≡ full.events_count)
          × (length full.connections ≡ length full.connections))
Reach-Grows_example = Reach-Grows conf (next (incoming (some 7)) stay tt refused)

-- ===== src/Proxy.antt =====
-- proxy/proxy.c and proxy/log.c: the parsing of a request, and one connection from its request to
-- its log entry. The buffer of the request is not cleared: behind the received bytes stands what
-- was there before.
pub mod Address
pub mod Relay
use network_system_hw.Base.{
  ℕ, zero, suc, ◌+◌, ◌-◌, ◌*◌, ◌/◌, ◌%◌, ◌^◌, Bool, true, false, ◌&&◌, ◌||◌, List, [], ◌∷◌, ◌++◌,
  Option, none, some, if◌then◌else◌, ltb, leb, ◌==◌, ◌>>=◌, length, take, drop, Bytes, codes,
  str_eq, cstr, copy, has, decimal, atoi, to_int,
}
use network_system_hw.Strutil.{lower}

abbrev pub maxbuf : ℕ
maxbuf = 4096

-- An `int` that `atoi` reads: whether it is negative, and its size.
abbrev pub Port : Type 0
Port = Bool × ℕ

abbrev pub default_port : Port
default_port = (false, 80)

abbrev pub is_host_end : ℕ → Bool
is_host_end c = has (codes " :/\r\n") c

-- The address in front of `hostend`, and the text from there on.
unfoldable pub host_of : Bytes → Bytes × Bytes
host_of [] = ([], [])
host_of (c ∷ s) = if is_host_end c then ([], c ∷ s) else (c ∷ (host_of s).0, (host_of s).1)

-- `*hostend == ':'`
abbrev pub port_of : Bytes → Port
port_of [] = default_port
port_of (c ∷ s) = if c == b':' then to_int (atoi s) else default_port

-- Behind the first `/`; without one the path is empty.
unfoldable pub path_of : Bytes → Bytes
path_of [] = []
path_of (c ∷ s) = if c == b'/' then s else path_of s

-- Whether `parse_address` returns 1, with the address, the port and the path that it sets.
pub data Parsed : Type 0 where
  unparsed : Parsed
  target : Bytes → Port → Bytes → Parsed

abbrev parse_host : Bytes → Parsed
parse_host s = target (host_of s).0 (port_of (host_of s).1) (path_of s)

unfoldable pub parse_address : Bytes → Parsed
unfolding host_of path_of
parse_address uri =
    if str_eq (lower (take 7 uri)) (codes "http://") then parse_host (drop 7 uri) else unparsed

-- `isspace`
abbrev pub is_space : ℕ → Bool
is_space c = c == b' ' || (leb 9 c && leb c 13)

unfoldable pub skip_space : Bytes → Bytes
skip_space [] = []
skip_space (c ∷ s) = if is_space c then skip_space s else c ∷ s

unfoldable pub word_of : Bytes → Bytes × Bytes
word_of [] = ([], [])
word_of (c ∷ s) = if is_space c then ([], c ∷ s) else (c ∷ (word_of s).0, (word_of s).1)

-- One "%s" of `sscanf` and the text behind it; `none` where the text ends first.
unfoldable pub scan_word : Bytes → Option (Bytes × Bytes)
unfolding skip_space word_of
scan_word s = let rest = skip_space s in if length rest == 0 then none else some (word_of rest)

-- What `read_request` finds: it returns -1 in all cases but the last.
pub data Request : Type 0 where
  closed : Request
  unsupported : Bytes → Request
  bad_address : Bytes → Request
  proxied : (address : Bytes) (port : Port) (path uri version : Bytes) → Request

-- `none` is a use of a word that `sscanf` has not set.
abbrev with_version : Bytes → Bytes → Port → Bytes → Option (Bytes × Bytes) → Option Request
with_version uri address port path none = none
with_version uri address port path (some (version, rest)) =
    some (proxied address port path uri version)

abbrev with_address : Bytes → Bytes → Parsed → Option Request
with_address uri rest unparsed = some (bad_address uri)
with_address uri rest (target address port path) =
    with_version uri address port path (scan_word rest)

abbrev with_uri : Option (Bytes × Bytes) → Option Request
with_uri none = none
with_uri (some (uri, rest)) = with_address uri rest (parse_address uri)

abbrev with_method : Option (Bytes × Bytes) → Option Request
with_method none = none
with_method (some (method, rest)) =
    if str_eq (lower method) (codes "get")
    then with_uri (scan_word rest)
    else some (unsupported method)

-- The string in `buf`, whose bytes behind the received ones are `stale`; `none` where no NUL ends
-- it.
abbrev pub buffer_text : Bytes → Bytes → Option Bytes
buffer_text received stale =
    let buf = take maxbuf (received ++ drop (length received) stale) in
    if has buf 0 then some (cstr buf) else none

-- `recv` brings bytes, none at the end of the stream, or fails.
unfoldable pub read_request : Option Bytes → Bytes → Option Request
unfolding scan_word parse_address
read_request (some []) stale = some closed
read_request (some (c ∷ s)) stale =
    buffer_text (c ∷ s) stale >>= λ text. with_method (scan_word text)
read_request none stale = buffer_text [] stale >>= λ text. with_method (scan_word text)

-- The text of `send_request`
abbrev pub request_text : Bytes → Bytes → Bytes → Bytes
request_text address path version =
    codes "GET /"
    ++ (path ++ (b' ' ∷ (version ++ (codes "\r\nHost: " ++ (address ++ codes "\r\n\r\n")))))

-- The text of `send_error_msg`
abbrev pub error_text : Bytes → Bytes → Bytes → Bytes
error_text errnum shortmsg longmsg =
    codes "HTTP/1.0 "
    ++ (errnum
        ++ (b' '
            ∷ (shortmsg
                ++ (codes "\r\nContent-type: text/html\r\nContent-length: "
                    ++ (decimal (length longmsg) ++ (codes "\r\n\r\n" ++ longmsg))))))

-- What the calls of one connection answer: `recv` from the client, what was in the buffer,
-- whether the server is reached, each `recv` from it with the number of bytes that `send` to the
-- client takes, the date, and the client's address unless `getpeername` fails.
pub record Net : Type 0 where
  pub received : Option Bytes
  pub stale : Bytes
  pub connected : Bool
  pub chunks : List (Bytes × ℕ)
  pub date : Bytes
  pub peer : Option ℕ

-- `host >> 24`, ...
abbrev pub dotted : ℕ → Bytes
dotted host =
    decimal (host / 2 ^ 24 % 256)
    ++ (b'.'
        ∷ (decimal (host / 2 ^ 16 % 256)
            ++ (b'.' ∷ (decimal (host / 2 ^ 8 % 256) ++ (b'.' ∷ decimal (host % 256))))))

-- `log_info` with `format_log_entry`: an array of 1024 bytes, which is printed unset where
-- `getpeername` fails.
unfoldable pub log_info : Bytes → Option ℕ → Bytes → ℕ → Option Bytes
log_info date none uri size = none
log_info date (some host) uri size =
    copy 1024 (date ++ (codes ": " ++ (dotted host ++ (b' ' ∷ (uri ++ (b' ' ∷ decimal size))))))

-- What the client gets, and `total_size`, an `int`.
unfoldable pub relay : ℕ → List (Bytes × ℕ) → Option (Bytes × ℕ)
relay total [] = some ([], total)
relay total ((chunk, took) ∷ chunks) =
    let rest = relay (total + length chunk) chunks in
    if ltb (total + length chunk) (2 ^ 31)
    then (rest >>= λ (out, size). some (take took chunk ++ out, size))
    else none

-- What one connection did: the bytes sent to both sides, the log line, and whether the
-- descriptors were closed.
pub record Session : Type 0 where
  pub to_client : Bytes
  pub to_server : Bytes
  pub logged : Option Bytes
  pub closes : Bool

-- Behind a `read_request` that returned -1: nothing is closed.
abbrev pub given_up : Bytes → Session
given_up text = record { to_client = text; to_server = []; logged = none; closes = false }

unfoldable pub serve_request : Net → Request → Option Session
unfolding relay log_info
serve_request net closed = some (given_up [])
serve_request net (unsupported method) = some (given_up [])
serve_request net (bad_address uri) = some (
    given_up
      (error_text (codes "400") (codes "Bad request") (codes "Proxy cannot parse the address")))
serve_request net (proxied address port path uri version) =
    copy maxbuf (request_text address path version) >>= λ text.
    relay 0 (if net.connected then net.chunks else []) >>= λ (out, size).
    log_info net.date net.peer uri size >>= λ line. some (record {
      to_client = out;
      to_server = if net.connected then text else [];
      logged = some line;
      closes = true;
    })

unfoldable pub connection_handler : Net → Option Session
unfolding read_request serve_request
connection_handler net =
    read_request net.received net.stale >>= λ request. serve_request net request

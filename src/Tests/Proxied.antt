-- ===== src/Tests/Proxied.antt =====
-- proxy/proxy.c and proxy/log.c
use network_system_hw.Base.{
  ◌≡◌, ◌⊎◌, refl, true, false, [], ◌∷◌, ◌++◌, some, arith, Bytes, codes, decimal, digits_from,
  str_eq, cstr, atoi, to_int, digits_value, arith,
}
use network_system_hw.Base.Memory.{zeros}
use network_system_hw.Strutil.{lower}
use network_system_hw.Proxy.{
  target, parse_address, unsupported, proxied, read_request, Net, log_info, given_up,
  connection_handler,
}
use network_system_hw.Proxy.Address.{parse_address_lem}
use network_system_hw.Proxy.Relay.{
  NamesServer, IsGivenUp, connection_handler-relays, connection_handler-IsGivenUp,
}

lower_case : lower (codes "HTTP://") ≡ codes "http://"
unfolding lower
lower_case = refl

parse_address_example :
    (parse_address
        (codes "HTTP://" ++ (codes "ab" ++ (b':' ∷ (decimal 8080 ++ (b'/' ∷ codes "x")))))
      ≡ target (codes "ab") (false, 8080) (codes "x"))
    × (parse_address (codes "HTTP://" ++ (codes "ab" ++ (b'/' ∷ codes "x")))
        ≡ target (codes "ab") (false, 80) (codes "x"))
    × (parse_address (codes "HTTP://" ++ codes "ab") ≡ target (codes "ab") (false, 80) [])
parse_address_example =
    parse_address_lem (codes "HTTP://") (codes "ab") (codes "x") 8080 (omega arith) refl lower_case
      (refl, (refl, tt))

abbrev net_of : Bytes → Net
net_of received = record {
  received = some received;
  stale = zeros 60;
  connected = true;
  chunks = (codes "he", 2) ∷ (codes "llo", 9) ∷ [];
  date = codes "d";
  peer = some 2130706433;
}

abbrev asking : Net
asking = net_of (codes "GET http://a:81/x HTTP/1.0\r\n\r\n")

asking_run :
    read_request asking.received asking.stale
    ≡ some (proxied (codes "a") (false, 81) (codes "x") (codes "http://a:81/x") (codes "HTTP/1.0"))
unfolding read_request lower str_eq cstr zeros atoi to_int digits_value
asking_run = refl

log_run :
    log_info (codes "d") (some 2130706433) (codes "http://a:81/x") 5
    ≡ some (codes "d: 127.0.0.1 http://a:81/x 5")
unfolding log_info decimal digits_from
log_run = refl

relays_example :
    connection_handler asking
    ≡ some (record {
      to_client = codes "hello";
      to_server = codes "GET /x HTTP/1.0\r\nHost: a\r\n\r\n";
      logged = some (codes "d: 127.0.0.1 http://a:81/x 5");
      closes = true;
    })
relays_example =
    connection_handler-relays asking (codes "a") (false, 81) (codes "x") (codes "http://a:81/x")
      (codes "HTTP/1.0") (codes "d: 127.0.0.1 http://a:81/x 5") asking_run refl
      (omega arith, (omega arith, tt)) (omega arith) (omega arith) log_run

abbrev posting : Net
posting = net_of (codes "POST http://a/x HTTP/1.0\r\n\r\n")

posting_run : read_request posting.received posting.stale ≡ some (unsupported (codes "POST"))
unfolding read_request lower str_eq cstr zeros
posting_run = refl

posting-given_up : connection_handler posting ≡ some (given_up [])
unfolding connection_handler lower str_eq cstr zeros
posting-given_up = refl

given_up_example : NamesServer (unsupported (codes "POST")) ⊎ IsGivenUp (given_up [])
given_up_example =
    connection_handler-IsGivenUp posting (unsupported (codes "POST")) (given_up []) posting_run
      posting-given_up

-- ===== src/Tests/Requests.antt =====
-- `parse_http_req` of http_server/http.c
use network_system_hw.Base.{◌≡◌, refl, none, some, Bytes, codes, str_eq}
use network_system_hw.Strutil.{strip, split, split_first, lower, remove_endl}
use network_system_hw.HttpServer.Config.{get_content_type}
use network_system_hw.HttpServer.Request.{Request, parse_http_req}
use network_system_hw.HttpServer.Request.Errors.{
  Follows, parse_http_req-Follows, IsAnswerable, parse_http_req-IsAnswerable, bad_request,
}
use network_system_hw.Tests.Configs.{conf}

abbrev pub text : Bytes
text = codes "POST /a.js HTTP/1.1\r\nHost:  h \r\nConnection: Keep-Alive\r\n\r\nx=1\ny=2"

abbrev pub request : Request
request = record {
  method = 2;
  version = 11;
  keep_alive = 1;
  error_code = 0;
  host = codes "h";
  uri = codes "/a.js";
  content_type = codes "text/js";
  post_data = codes "x=1\ny=2";
}

parse_text : parse_http_req text conf ≡ some request
unfolding parse_http_req strip split split_first lower remove_endl str_eq get_content_type
parse_text = refl

parse_short : parse_http_req (codes "GET /\r\n") conf ≡ some bad_request
unfolding parse_http_req strip split split_first lower remove_endl str_eq get_content_type
parse_short = refl

five_words : parse_http_req (codes "GET / a b HTTP/1.1\r\n") conf ≡ none
unfolding parse_http_req strip split split_first lower remove_endl str_eq get_content_type
five_words = refl

parse_http_req-Follows_example :
    Follows conf (codes "POST") (codes "/a.js") (codes "HTTP/1.1") request
unfolding strip split remove_endl
parse_http_req-Follows_example = parse_http_req-Follows text conf refl refl parse_text

parse_http_req-IsAnswerable_example : IsAnswerable request
parse_http_req-IsAnswerable_example = parse_http_req-IsAnswerable text conf parse_text

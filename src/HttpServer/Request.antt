-- ===== src/HttpServer/Request.antt =====
-- `parse_http_req` of http_server/http.c, with `http_req_t` of http_server/http.h.
pub mod Errors
use network_system_hw.Base.{
  ℕ, Bool, true, false, List, [], ◌∷◌, ◌++◌, Option, some, if◌then◌else◌, ◌>>=◌, get_or, Bytes,
  codes, str_eq, copy,
}
use network_system_hw.Strutil.{remove_endl, strip, split, split_first, lower}
use network_system_hw.HttpServer.Config.{Config, get_content_type}

pub record Request : Type 0 where
  pub method : ℕ
  pub version : ℕ
  pub keep_alive : ℕ
  pub error_code : ℕ
  pub host : Bytes
  pub uri : Bytes
  pub content_type : Bytes
  pub post_data : Bytes

abbrev pub get : ℕ
get = 1

abbrev pub post : ℕ
post = 2

abbrev pub err_bad_request : ℕ
err_bad_request = 1

abbrev pub err_not_found : ℕ
err_not_found = 2

abbrev pub err_not_implemented : ℕ
err_not_implemented = 4

-- `bzero(req, sizeof(http_req_t))`
abbrev pub zeroed : Request
zeroed = record {
  method = 0;
  version = 0;
  keep_alive = 0;
  error_code = 0;
  host = [];
  uri = [];
  content_type = [];
  post_data = [];
}

unfoldable pub set_method : Request → Bytes → Request
set_method req t =
    if str_eq t (codes "GET")
    then record req { method = get }
    else if str_eq t (codes "POST")
    then record req { method = post }
    else record req { error_code = err_not_implemented }

unfoldable pub set_uri : Config → Request → Bytes → Option Request
set_uri conf req t = do
  uri ← copy 1024 t
  whole ← copy 1024 (if str_eq uri (codes "/") then uri ++ get_or conf.index 0 [] else uri)
  some (record req { uri = whole })

-- `if (strlen(req->content_type) == 0)`
abbrev checked_type : Request → Bytes → Request
checked_type req [] = record req { content_type = []; error_code = err_not_implemented }
checked_type req (c ∷ s) = record req { content_type = c ∷ s }

unfoldable pub set_content_type : Config → Request → Option Request
set_content_type conf req = do
  content_type ← get_content_type conf req.uri
  some (checked_type req content_type)

unfoldable pub set_version : Request → Bytes → Request
set_version req t =
    if str_eq t (codes "HTTP/1.1")
    then record req { version = 11 }
    else if str_eq t (codes "HTTP/1.0")
    then record req { version = 10 }
    else record req { error_code = err_bad_request }

abbrev pub is_empty : Bytes → Bool
is_empty [] = true
is_empty (c ∷ s) = false

-- A header with its name in `p[0]` and its value in `p[1]`.
unfoldable pub header : Request → Bytes → Bytes → Option Request
header req name value =
    if str_eq name (codes "host")
    then (copy 256 (strip value b' ') >>= λ host. some (record req { host = host }))
    else if str_eq name (codes "connection")
    then some (record req {
      keep_alive = if str_eq (strip value b' ') (codes "keep-alive") then 1 else 0;
    })
    else some req

unfoldable pub header_line : Request → Bytes → Option Request
unfolding header
header_line req line = do
  let parts = split_first (lower line) b':'
  name ← copy 128 parts.0
  value ← copy 128 parts.1
  header req (strip name b' ') value

-- The loop from `lines[1]` on; with the request, the lines behind the empty one.
unfoldable pub headers : Request → List Bytes → Option (Request × List Bytes)
unfolding header_line
headers req [] = some (req, [])
headers req (l ∷ ls) =
    let line = remove_endl l in
    let rest = header_line req line >>= λ req'. headers req' ls in
    if is_empty line then some (req, ls) else rest

-- The loop over the lines of the body.
unfoldable pub append_post : Bytes → List Bytes → Option Bytes
append_post data' [] = some data'
append_post data' (l ∷ []) = copy 2048 (data' ++ l)
append_post data' (l ∷ m ∷ ls) = do
  longer ← copy 2048 (data' ++ l)
  whole ← copy 2048 (longer ++ codes "\n")
  append_post whole (m ∷ ls)

-- The part behind `if (m < 3) … else`, on the request line's words and the lines below it.
unfoldable pub parse_words : Config → Request → Bytes → Bytes → Bytes → List Bytes → Option Request
unfolding set_method set_uri set_content_type set_version headers append_post
parse_words conf req m u v lines = do
  placed ← set_uri conf (set_method req m) u
  typed ← set_content_type conf placed
  (read, body) ← headers (set_version typed v) lines
  post_data ← append_post [] body
  some (record read { post_data = post_data })

unfoldable pub parse_request_line : Config → Request → List Bytes → List Bytes → Option Request
unfolding parse_words
parse_request_line conf req (m ∷ u ∷ v ∷ ts) lines = parse_words conf req m u v lines
parse_request_line conf req _ lines = some (record req { error_code = err_bad_request })

-- `lines[0]` is empty where `split` found nothing.
unfoldable pub parse_lines : Config → List Bytes → Option Request
unfolding parse_request_line
parse_lines conf [] = split 4 128 (remove_endl []) (codes " ") >>= λ p.
    parse_request_line conf (record zeroed { error_code = err_bad_request }) p []
parse_lines conf (l ∷ ls) =
    split 4 128 (remove_endl l) (codes " ") >>= λ p. parse_request_line conf zeroed p ls

unfoldable pub parse_http_req : Bytes → Config → Option Request
unfolding parse_lines
parse_http_req buf conf = split 32 256 buf (codes "\n") >>= parse_lines conf

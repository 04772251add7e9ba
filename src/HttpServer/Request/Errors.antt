-- ===== src/HttpServer/Request/Errors.antt =====
-- Which error code a parsed request carries, and what a request without one holds.
use network_system_hw.Base.{
  ℕ, ◌≡◌, refl, ◌⊎◌, inl, inr, Bool, false, not, ◌&&◌, ◌||◌, List, [], ◌∷◌, some, arith,
  if◌then◌else◌, Ensures, Ensures-bind, Ensures-if, Ensures-some, Ensures-mono, >>=-eq-some,
  some-injective, sym, ◌++◌, get_or, Bytes, codes, str_eq, copy, ◌<◌,
}
use network_system_hw.Strutil.{remove_endl, strip, split, split_first, lower}
use network_system_hw.HttpServer.Config.{Config, get_content_type}
use network_system_hw.HttpServer.Request.{
  Request, zeroed, err_bad_request, err_not_implemented, checked_type, is_empty, set_method,
  set_uri, set_content_type, set_version, header, header_line, headers, append_post, parse_words,
  parse_request_line, parse_lines, parse_http_req,
}

abbrev pub is_method : Bytes → Bool
is_method t = str_eq t (codes "GET") || str_eq t (codes "POST")

abbrev pub is_version : Bytes → Bool
is_version t = str_eq t (codes "HTTP/1.1") || str_eq t (codes "HTTP/1.0")

-- The code that the request line's words `m` and `v` and the type found for its address decide.
abbrev pub error_of : Bytes → Bytes → Bytes → ℕ
error_of m v content_type =
    if is_version v
    then (if is_method m && not (is_empty content_type) then 0 else err_not_implemented)
    else err_bad_request

-- What the header lines leave alone.
record SameLine (a b : Request) : Type 0 where
  method_same : b.method ≡ a.method
  version_same : b.version ≡ a.version
  error_same : b.error_code ≡ a.error_code
  uri_same : b.uri ≡ a.uri
  type_same : b.content_type ≡ a.content_type
  flag : (b.keep_alive ≡ a.keep_alive) ⊎ (b.keep_alive < 2)

SameLine-refl : (a : Request) → SameLine a a
SameLine-refl a = record {
  method_same = refl;
  version_same = refl;
  error_same = refl;
  uri_same = refl;
  type_same = refl;
  flag = inl refl;
}

SameLine-trans : (a b c : Request) → SameLine a b → SameLine b c → SameLine a c
SameLine-trans a b c h k = ground arith

header-SameLine :
    (req : Request) (name value : Bytes) → Ensures (SameLine req) (header req name value)
unfolding header
header-SameLine req name value = ground arith

header_line-SameLine :
    (req : Request) (line : Bytes) → Ensures (SameLine req) (header_line req line)
unfolding header_line
header_line-SameLine req line =
    Ensures-bind (SameLine req) (copy 128 (split_first (lower line) b':').0) _ λ name _.
      Ensures-bind (SameLine req) (copy 128 (split_first (lower line) b':').1) _
        λ value _. header-SameLine req (strip name b' ') value

headers-SameLine :
    (ls : List Bytes) (req : Request) → Ensures (λ r. SameLine req r.0) (headers req ls)
unfolding headers
headers-SameLine [] req = SameLine-refl req
headers-SameLine (l ∷ ls) req =
    Ensures-if (λ r. SameLine req r.0) (is_empty (remove_endl l)) _ _ (λ e. SameLine-refl req)
      (λ e.
        Ensures-bind (λ r. SameLine req r.0) (header_line req (remove_endl l)) _
          λ a found.
            Ensures-mono {P = λ r. SameLine a r.0} (headers a ls)
              (λ r h.
                SameLine-trans req a r.0
                  (Ensures-some (SameLine req) _ (header_line-SameLine req (remove_endl l)) found)
                  h)
              (headers-SameLine ls a))

-- The record of a request whose line has the words `m`, `u` and `v`.
pub record Follows (conf : Config) (m u v : Bytes) (r : Request) : Type 0 where
  pub method_is :
      r.method ≡ (if str_eq m (codes "GET") then 1 else if str_eq m (codes "POST") then 2 else 0)
  pub version_is :
      r.version
      ≡ (if str_eq v (codes "HTTP/1.1") then 11 else if str_eq v (codes "HTTP/1.0") then 10 else 0)
  pub uri_is : r.uri ≡ (if str_eq u (codes "/") then u ++ get_or conf.index 0 [] else u)
  pub type_is : get_content_type conf r.uri ≡ some r.content_type
  pub error_is : r.error_code ≡ error_of m v r.content_type
  pub flag : r.keep_alive < 2

set_uri_lem :
    (conf : Config) (req : Request) (t : Bytes) {r : Request}
    → set_uri conf req t ≡ some r
    → r ≡ record req { uri = if str_eq t (codes "/") then t ++ get_or conf.index 0 [] else t }
unfolding set_uri
set_uri_lem conf req t h = let (uri, whole, rest) = >>=-eq-some (copy 1024 t) _ h in ground arith

set_content_type_lem :
    (conf : Config) (req : Request) {r : Request}
    → set_content_type conf req ≡ some r
    → (t : Bytes) × (get_content_type conf req.uri ≡ some t) × (r ≡ checked_type req t)
unfolding set_content_type
set_content_type_lem conf req {r} h =
    let (t, found, rest) = >>=-eq-some (get_content_type conf req.uri) _ h in
    (t, found, some-injective r (checked_type req t) (sym rest))

-- The request line alone decides all but the flag and the texts of the headers.
set_line_lem :
    (conf : Config) (m u v : Bytes) {placed typed read : Request}
    → set_uri conf (set_method zeroed m) u ≡ some placed
    → set_content_type conf placed ≡ some typed
    → SameLine (set_version typed v) read
    → Follows conf m u v read
unfolding set_method set_version
set_line_lem conf m u v {placed} {typed} {read} at kind same =
    let e = set_uri_lem conf (set_method zeroed m) u at in
    let (t, found, e') = set_content_type_lem conf placed kind in by_type t found e' e
  where
    by_type :
        (t : Bytes)
        → get_content_type conf placed.uri ≡ some t
        → typed ≡ checked_type placed t
        → placed ≡ record (set_method zeroed m) {
          uri = if str_eq u (codes "/") then u ++ get_or conf.index 0 [] else u;
        }
        → Follows conf m u v read
    by_type [] found e' e = ground arith
    by_type (c ∷ s) found e' e = ground arith

parse_words-Follows :
    (conf : Config) (m u v : Bytes) (lines : List Bytes)
    → Ensures (Follows conf m u v) (parse_words conf zeroed m u v lines)
unfolding parse_words
parse_words-Follows conf m u v lines =
    Ensures-bind F (set_uri conf (set_method zeroed m) u) _ λ placed at.
      Ensures-bind F (set_content_type conf placed) _ λ typed kind.
        Ensures-bind F (headers (set_version typed v) lines) _ λ read same.
          Ensures-bind F (append_post [] read.1) _ λ body _.
            let kept =
              Ensures-some (λ r. SameLine (set_version typed v) r.0) _ (headers-SameLine lines _)
                same in
            let follows = set_line_lem conf m u v at kind kept in
            record {
              method_is = follows.method_is;
              version_is = follows.version_is;
              uri_is = follows.uri_is;
              type_is = follows.type_is;
              error_is = follows.error_is;
              flag = follows.flag;
            }
  where
    F : Request → Type 0
    F = Follows conf m u v

-- The answer to a text whose first line has fewer than three words.
abbrev pub bad_request : Request
bad_request = record zeroed { error_code = err_bad_request }

-- A request whose first line has three words or more is decided by these: its method and version,
-- its address with the index page for `/`, the content type that the configuration has for it,
-- and as error code 400 for an unknown version, or else 501 for an unknown method or type, or
-- else none.
pub parse_http_req-Follows :
    (buf : Bytes) (conf : Config) {l m u v : Bytes} {ls ts : List Bytes} {r : Request}
    → split 32 256 buf (codes "\n") ≡ some (l ∷ ls)
    → split 4 128 (remove_endl l) (codes " ") ≡ some (m ∷ u ∷ v ∷ ts)
    → parse_http_req buf conf ≡ some r
    → Follows conf m u v r
unfolding parse_http_req
parse_http_req-Follows buf conf {l} {m} {u} {v} {ls} cut words h =
    Ensures-some (Follows conf m u v) _ (parse_words-Follows conf m u v ls) (rw (cut, words) at h)

-- What `handle_out` may rely on.
pub record IsAnswerable (r : Request) : Type 0 where
  pub code_is :
      (r.error_code ≡ 0) ⊎ ((r.error_code ≡ err_bad_request) ⊎ (r.error_code ≡ err_not_implemented))
  pub method_known : r.error_code ≡ 0 → (r.method ≡ 1) ⊎ (r.method ≡ 2)
  pub version_known : r.error_code ≡ 0 → (r.version ≡ 10) ⊎ (r.version ≡ 11)
  pub type_known : r.error_code ≡ 0 → is_empty r.content_type ≡ false
  pub flag_is : r.keep_alive < 2

Follows-IsAnswerable :
    (conf : Config) (m u v : Bytes) (r : Request) → Follows conf m u v r → IsAnswerable r
Follows-IsAnswerable conf m u v r f = record {
  code_is = ground (arith, f.error_is);
  method_known = λ e. ground (arith, f.error_is, f.method_is);
  version_known = λ e. ground (arith, f.error_is, f.version_is);
  type_known = λ e. ground (arith, f.error_is);
  flag_is = f.flag;
}

bad_request-IsAnswerable : IsAnswerable bad_request
bad_request-IsAnswerable = record {
  code_is = inr (inl refl);
  method_known = λ e. absurd (omega arith);
  version_known = λ e. absurd (omega arith);
  type_known = λ e. absurd (omega arith);
  flag_is = omega arith;
}

parse_request_line-IsAnswerable :
    (conf : Config) (p lines : List Bytes)
    → Ensures IsAnswerable (parse_request_line conf zeroed p lines)
unfolding parse_request_line
parse_request_line-IsAnswerable conf [] lines = bad_request-IsAnswerable
parse_request_line-IsAnswerable conf (m ∷ []) lines = bad_request-IsAnswerable
parse_request_line-IsAnswerable conf (m ∷ u ∷ []) lines = bad_request-IsAnswerable
parse_request_line-IsAnswerable conf (m ∷ u ∷ v ∷ ts) lines =
    Ensures-mono (parse_words conf zeroed m u v lines) (Follows-IsAnswerable conf m u v)
      (parse_words-Follows conf m u v lines)

parse_lines-IsAnswerable :
    (conf : Config) (lines : List Bytes) → Ensures IsAnswerable (parse_lines conf lines)
unfolding parse_lines split remove_endl
parse_lines-IsAnswerable conf [] = bad_request-IsAnswerable
parse_lines-IsAnswerable conf (l ∷ ls) =
    Ensures-bind IsAnswerable (split 4 128 (remove_endl l) (codes " ")) _
      λ p _. parse_request_line-IsAnswerable conf p ls

-- Whatever text arrives, the parsed request's error code is 0, 400's or 501's index, and code 0
-- means a known method, a known version and a content type that is not empty.
pub parse_http_req-IsAnswerable :
    (buf : Bytes) (conf : Config) {r : Request} → parse_http_req buf conf ≡ some r → IsAnswerable r
unfolding parse_http_req
parse_http_req-IsAnswerable buf conf h =
    Ensures-some IsAnswerable (parse_http_req buf conf)
      (Ensures-bind IsAnswerable (split 32 256 buf (codes "\n")) _
        λ lines _. parse_lines-IsAnswerable conf lines)
      h

-- ===== src/HttpServer/Response.antt =====
-- The answers of http_server/http.c: its tables, `build_http_resp_header` and
-- `append_post_reponse`, with `http_resp_header_t` of http_server/http.h.
use network_system_hw.Base.{
  ℕ, zero, suc, List, [], ◌∷◌, ◌++◌, Option, none, some, if◌then◌else◌, ◌>>=◌, ◌==◌, Bytes, codes,
  copy, decimal, print_int,
}

abbrev nth {ℓ} : {A : Type ℓ} → List A → ℕ → Option A
nth [] i = none
nth (x ∷ xs) zero = some x
nth (x ∷ xs) (suc i) = nth xs i

-- The two tables; `none` is a read past their end.
unfoldable pub err_status_code : ℕ → Option ℕ
err_status_code = nth (200 ∷ 400 ∷ 404 ∷ 500 ∷ 501 ∷ [])

unfoldable pub err_resp : ℕ → Option Bytes
err_resp = nth (
    []
    ∷ codes "<html><body>400 Bad Request</body></html>"
    ∷ codes "<html><body>404 Not Found</body></html>"
    ∷ codes "<html><body>500 Internal Server Error</body></html>"
    ∷ codes "<html><body>501 Not Implemented</body></html>"
    ∷ [])

unfoldable pub get_reason_phrase : ℕ → Bytes
get_reason_phrase status_code =
    if status_code == 200
    then codes "OK"
    else if status_code == 400
    then codes "Bad Request"
    else if status_code == 404
    then codes "Not Found"
    else if status_code == 501
    then codes "Not Implemented"
    else codes "Internal Server Error"

unfoldable pub get_http_version_str : ℕ → Bytes
get_http_version_str version =
    if version == 10 then codes "HTTP/1.0" else if version == 11 then codes "HTTP/1.1" else []

-- `content_length` is the word of an `int64_t`.
pub record ResponseHeader : Type 0 where
  pub version : ℕ
  pub status_code : ℕ
  pub keep_alive : ℕ
  pub content_length : ℕ
  pub content_type : Bytes

-- The format, whose "%d" prints an `int` of the Content-Length; `date` is what `format_current_time` wrote.
unfoldable pub build_http_resp_header : Bytes → ResponseHeader → Bytes
unfolding get_reason_phrase get_http_version_str
build_http_resp_header date h =
    get_http_version_str h.version
    ++ (codes " "
        ++ (decimal h.status_code
            ++ (codes " "
                ++ (get_reason_phrase h.status_code
                    ++ (codes "\r\nDate: "
                        ++ (date
                            ++ (codes "\r\nContent-Length: "
                                ++ (print_int h.content_length
                                    ++ (codes "\r\nConnection: "
                                        ++ ((if h.keep_alive == 0
                                              then codes "close"
                                              else codes "keep-alive")
                                            ++ (codes "\r\nContent-Type: "
                                                ++ (h.content_type
                                                    ++ codes
                                                        "\r\nCache-control: max-age=3600\r\n\r\n"))))))))))))

-- `tmp` has 1024 bytes, and `buf` 4096.
unfoldable pub append_post_reponse : Bytes → Bytes → Option Bytes
append_post_reponse buf post_data =
    copy 1024 (codes "<h1>Post Data</h1><pre>" ++ (post_data ++ codes "</pre>")) >>= λ tmp.
    copy 4096 (buf ++ tmp)

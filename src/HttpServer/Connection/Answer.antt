-- ===== src/HttpServer/Connection/Answer.antt =====
-- From the request to the last byte: the whole answer to a request for a file that is there.
use network_system_hw.Base.{
  ℕ, ◌+◌, ◌^◌, ◌<◌, decimal, print_int, print_int_small, ◌≡◌, ◌≢◌, refl, sym, ap, ◌∙◌, true, false,
  List, [], ◌∷◌, ◌++◌, append_assoc, none, some, arith, ◌==◌, if◌then◌else◌, ◌>>=◌, length,
  length-append, take_all, All, Bytes, Bool-cases, Option-cases, ==_iff, inl, inr, codes, lt→ltb,
}
use network_system_hw.HttpServer.Config.{Config}
use network_system_hw.HttpServer.Request.{Request, post}
use network_system_hw.HttpServer.Response.{err_status_code, build_http_resp_header}
use network_system_hw.HttpServer.Connection.{
  epollin, epollout, Connection, Os, wrote, would_block, reset_epoll, stream, send_outcome,
  after_send, file_header, size_word, answer_file, answer, answer_opened, handle_out,
}
use network_system_hw.HttpServer.Connection.Body.{
  serve, gather, Passes, passed, send_all, Streams, serve-stream, stream_end, stream_end_plain,
  streaming, reset-closed, post_page, tail_of,
}

abbrev pub path_of : Config → Request → Bytes
path_of conf req = conf.root ++ req.uri

abbrev pub header_of : Config → Os → Request → Bytes
header_of conf os req = build_http_resp_header os.date (file_header os req (path_of conf req) 200)

-- A connection that holds a request without an error, and the events of one answer: the first
-- opens the file `fd` and sends the header, those between read and send the file, the last finds
-- its end. Every `send` takes all that it is given, and what is built fits its array.
pub record Answers (conf : Config) (req : Request) (fd : ℕ) (first : Os) (between : List Os)
    (last : Os) (c : Connection) : Type 0 where
  pub waiting : Streams req 0 c
  pub no_error : req.error_code ≡ 0
  pub opened : fd ≢ 0
  pub opens : first.open_file (path_of conf req) ≡ some fd
  pub path_fits : length (path_of conf req) < 4096
  pub header_fits : length (header_of conf first req) < 4096
  pub header_sent : first.send_result ≡ wrote (length (header_of conf first req))
  pub parts_sent : All Passes between
  pub ends : last.read_file ≡ some []
  pub post_fits : length (post_page req) < 1024
  pub post_sent : last.send_result ≡ wrote (length (post_page req))

module _ {conf : Config} {req : Request} {fd : ℕ} {first : Os} {between : List Os} {last : Os}
    {c : Connection} (a : Answers conf req fd first between last c) where
  abbrev after_header : Connection
  after_header =
      let c' : Connection = record c { io = record (c.io) { readfd = fd } } in
      record (passed c' (header_of conf first req)) { interest = epollout }

  answer_file_lem : answer_file first c req (path_of conf req) fd ≡ some after_header
  unfolding answer_file err_status_code after_send
  answer_file_lem = rw (lt→ltb _ _ a.header_fits) (
      ap some (
        send_all first (record c { io = record (c.io) { readfd = fd } }) (header_of conf first req)
          true a.header_sent))

  answer_lem : answer conf first c req ≡ some after_header
  unfolding answer
  answer_lem =
      rw ((==_iff req.error_code 0).1 a.no_error, lt→ltb _ _ a.path_fits)
        (ap (answer_opened first c req (path_of conf req)) a.opens ∙ answer_file_lem)

  answer_first : handle_out conf first c ≡ some after_header
  unfolding handle_out
  answer_first =
      (let w = a.waiting in
        let asks : handle_out conf first c ≡ answer conf first c req = ground arith in asks)
      ∙ answer_lem

serve-append :
    (conf : Config) (xs ys : List Os) (c : Connection)
    → serve conf (xs ++ ys) c ≡ (serve conf xs c >>= serve conf ys)
unfolding serve
serve-append conf [] ys c = refl
serve-append conf (x ∷ xs) ys c = elim (Option-cases (handle_out conf x c)) [
  | inl e ↦ rw e
  | inr (c', e) ↦ rw e (serve-append conf xs ys c')
]

length-tail_of :
    (req : Request)
    → length (tail_of req) ≡ (if req.method == post then 29 + length req.post_data else 0)
length-tail_of req = elim (Bool-cases (req.method == post)) [
  | inl e ↦ rw e (
      omega (
        arith,
        length-append (codes "<h1>Post Data</h1><pre>") (req.post_data ++ codes "</pre>"),
        length-append req.post_data (codes "</pre>"),
      ))
  | inr e ↦ rw e
]

-- If every `send` takes all that it is given, `stat` counts the bytes that are read, what is built
-- fits its array, a POST is one to a page, and the file, and with a POST its data in its markup,
-- are fewer than 2 ^ 31 bytes, then the answer to a request for a file that opens is one header
-- with status 200 and the bytes that the file gives, with the POST data in its markup behind a
-- POST. Their number is what the header prints as Content-Length. At the end the file is closed and
-- the connection waits for the next request.
pub serve-whole :
    (conf : Config) (req : Request) (fd : ℕ) (first : Os) (between : List Os) (last : Os)
    (c : Connection)
    → Answers conf req fd first between last c
    → (req.method ≡ post → req.content_type ≡ codes "text/html")
    → first.file_size (path_of conf req) ≡ some (length (gather between))
    → length (gather between ++ tail_of req) < 2 ^ 31
    → (c' : Connection) × (body : Bytes) × (serve conf (first ∷ (between ++ (last ∷ []))) c
        ≡ some c')
      × (c'.sent ≡ c.sent ++ (header_of conf first req ++ body))
      × (body ≡ gather between ++ tail_of req)
      × (length body ≡ (file_header first req (path_of conf req) 200).content_length)
      × (print_int (file_header first req (path_of conf req) 200).content_length
          ≡ decimal (length body))
      × (c'.interest ≡ epollin)
      × (c'.io.readfd ≡ 0)
      × (c'.closed ≡ c.closed ++ (fd ∷ []))
unfolding serve
serve-whole conf req fd first between last c a page counted small =
    let held : Streams req fd (after_header a) = record {
      req_is = a.waiting.req_is;
      buf_is = refl;
      file_is = refl;
    } in
    let (mid, run, s, text, files) =
      serve-stream conf req fd a.opened between (after_header a) a.parts_sent held in
    let (c', ended, text', reads, shut, files') =
      stream_end conf req fd a.opened last mid s a.ends a.post_fits a.post_sent page in
    let all : serve conf (between ++ (last ∷ [])) (after_header a) ≡ some c' =
      rw (serve-append, run, ended) in
    let size : size_word (first.file_size (path_of conf req)) ≡ length (gather between) =
      ap size_word counted in
    let length_is : length (gather between ++ tail_of req)
        ≡ (file_header first req (path_of conf req) 200).content_length =
      omega (arith, length-append (gather between) (tail_of req), length-tail_of req, size) in
    (
      c',
      gather between ++ tail_of req,
      rw (answer_first a) all,
      text' ∙ ap (λ t. t ++ tail_of req) text ∙ simp append_assoc,
      refl,
      length_is,
      ap print_int (sym length_is) ∙ print_int_small (length (gather between ++ tail_of req)) small,
      reads,
      shut,
      files' ∙ ap (λ f. f ++ (fd ∷ [])) files,
    )

-- The same run for a POST to a file that is no page, where the file, the markup and the POST data
-- are together fewer than 2 ^ 31 bytes: the bytes sent stay behind the Content-Length that the
-- header prints by the 29 bytes of markup and the length of the POST data.
pub serve-post_short :
    (conf : Config) (req : Request) (fd : ℕ) (first : Os) (between : List Os) (last : Os)
    (c : Connection)
    → Answers conf req fd first between last c
    → req.method ≡ post
    → req.content_type ≢ codes "text/html"
    → first.file_size (path_of conf req) ≡ some (length (gather between))
    → length (gather between) + (29 + length req.post_data) < 2 ^ 31
    → (c' : Connection) × (body : Bytes) × (serve conf (first ∷ (between ++ (last ∷ []))) c
        ≡ some c')
      × (c'.sent ≡ c.sent ++ (header_of conf first req ++ body))
      × (length body + (29 + length req.post_data)
          ≡ (file_header first req (path_of conf req) 200).content_length)
      × (print_int (file_header first req (path_of conf req) 200).content_length
          ≡ decimal (length body + (29 + length req.post_data)))
      × (c'.interest ≡ epollin)
unfolding serve
serve-post_short conf req fd first between last c a posts plain counted small =
    let held : Streams req fd (after_header a) = record {
      req_is = a.waiting.req_is;
      buf_is = refl;
      file_is = refl;
    } in
    let (mid, run, s, text, files) =
      serve-stream conf req fd a.opened between (after_header a) a.parts_sent held in
    let (c', ended, text', reads) = stream_end_plain conf req fd a.opened last mid s a.ends plain in
    let all : serve conf (between ++ (last ∷ [])) (after_header a) ≡ some c' =
      rw (serve-append, run, ended) in
    let size : size_word (first.file_size (path_of conf req)) ≡ length (gather between) =
      ap size_word counted in
    let length_is : length (gather between) + (29 + length req.post_data)
        ≡ (file_header first req (path_of conf req) 200).content_length =
      rw ((==_iff req.method post).1 posts) (omega (arith, size)) in
    (
      c',
      gather between,
      rw (answer_first a) all,
      text' ∙ text ∙ simp append_assoc,
      length_is,
      ap print_int (sym length_is)
          ∙ print_int_small (length (gather between) + (29 + length req.post_data)) small,
      reads,
    )

abbrev kept_of : Connection → Bytes → Connection
kept_of c buf = record c { io = record (c.io) { size = length buf; buf = some buf } }

-- A part of the file that `send` cannot take at once is kept, and the next writable event sends it
-- and then closes the file and goes back to reading: what is left of the file is not sent.
pub serve-blocked :
    (conf : Config) (req : Request) (fd : ℕ) (c : Connection) (blocked retry : Os) (part : Bytes)
    → Streams req fd c
    → fd ≢ 0
    → part ≢ []
    → blocked.read_file ≡ some part
    → blocked.send_result ≡ would_block
    → retry.send_result ≡ wrote (length part)
    → (c' : Connection) × (serve conf (blocked ∷ retry ∷ []) c ≡ some c')
      × (c'.sent ≡ c.sent ++ part)
      × (c'.closed ≡ c.closed ++ (fd ∷ []))
      × (c'.interest ≡ epollin)
      × (c'.io.req ≡ none)
unfolding serve stream handle_out after_send reset_epoll
serve-blocked conf req fd c blocked retry [] s opened ne r b w = absurd (ne refl)
serve-blocked conf req fd c blocked retry (x ∷ xs) s opened ne r b w =
    let kept = kept_of c (x ∷ xs) in
    let first : handle_out conf blocked c ≡ some kept =
      streaming conf req fd opened blocked c s
      ∙ ap (stream blocked c req) r
      ∙ ap (λ k. some (send_outcome blocked.time kept (x ∷ xs) true k)) b in
    let again : handle_out conf retry kept ≡ some (reset_epoll retry.time (passed kept (x ∷ xs))) =
      ap (λ k. some (send_outcome retry.time kept (x ∷ xs) false k)) w
      ∙ rw take_all (rw take_all) in
    (
      reset_epoll retry.time (passed kept (x ∷ xs)),
      rw (first, again),
      refl,
      reset-closed retry.time (passed kept (x ∷ xs)) (λ e. opened (sym s.file_is ∙ e))
          ∙ ap (λ f. c.closed ++ (f ∷ [])) s.file_is,
      refl,
      refl,
    )

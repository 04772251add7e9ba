-- ===== src/HttpServer/Connection/Phases.antt =====
-- What a connection holds in each of its two phases, and that the handlers keep it so.
use network_system_hw.Base.{
  ℕ, ◌<◌, Bool, true, false, length, subst, some-injective, ◌≡◌, refl, sym, ◌⊎◌, inl, inr, Option,
  none, some, arith, ◌==◌, Ensures, Ensures-bind, Ensures-if, Ensures-some, >>=-eq-some, ==_iff,
  Bytes, codes, str_eq, copy, cstr, [], ◌∷◌, ◌++◌, ◌&&◌,
}
use network_system_hw.HttpServer.Config.{Config}
use network_system_hw.HttpServer.Request.{Request, parse_http_req, err_not_found, post}
use network_system_hw.HttpServer.Request.Errors.{IsAnswerable, parse_http_req-IsAnswerable}
use network_system_hw.HttpServer.Response.{
  build_http_resp_header, err_status_code, err_resp, append_post_reponse,
}
use network_system_hw.HttpServer.Connection.{
  Interest, epollin, epollout, Io, Connection, Os, RecvResult, received, hung_up, recv_failed,
  handle_in, handle_out, SendResult, wrote, would_block, failed, reset_epoll, send_outcome,
  send_data, file_header, error_header, answer_file, answer_error, answer_opened, answer, finish,
  stream, handle_fresh, handle_buffer,
}

-- Reading: no request, no buffer, no open file. Writing: a request with an index into the tables of
-- answers, and a file only for a request without an error.
abbrev pub InPhase : Interest → Io → Type 0
InPhase epollin io = (io.req ≡ none) × (io.buf ≡ none) × (io.readfd ≡ 0)
InPhase epollout io =
    (r : Request) × (io.req ≡ some r) × (r.error_code < 5) × ((r.error_code ≡ 0) ⊎ (io.readfd ≡ 0))

abbrev pub IsGood : Connection → Type 0
IsGood c = InPhase c.interest c.io

abbrev IsWriting : Connection → Type 0
IsWriting c = (c.interest ≡ epollout) × InPhase epollout c.io

send_outcome-IsGood :
    (time : ℕ) (c : Connection) (buf : Bytes) (more : Bool) (r : SendResult)
    → IsWriting c
    → IsGood (send_outcome time c buf more r)
unfolding send_outcome
send_outcome-IsGood time c buf true (wrote n) w = w.1
send_outcome-IsGood time c buf false (wrote n) w = (refl, refl, refl)
send_outcome-IsGood time c buf more would_block w = rw w.0 w.1
send_outcome-IsGood time c buf more failed w = (refl, refl, refl)

send_data-IsGood :
    (os : Os) (c : Connection) (buf : Bytes) (more : Bool)
    → IsWriting c
    → IsGood (send_data os c buf more)
unfolding send_data
send_data-IsGood os c buf more w = send_outcome-IsGood os.time _ buf more os.send_result w

abbrev sized : Connection → Bytes → Connection
sized c buf = record c { io = record (c.io) { size = length buf } }

answer_file-IsGood :
    (os : Os) (c : Connection) (req : Request) (path : Bytes) (fd : ℕ)
    → c.interest ≡ epollout
    → c.io.req ≡ some req
    → req.error_code ≡ 0
    → Ensures IsGood (answer_file os c req path fd)
unfolding answer_file
answer_file-IsGood os c req path fd w held zero =
    Ensures-bind IsGood (err_status_code 0) _ λ status _.
      Ensures-bind IsGood
        (copy 4096 (build_http_resp_header os.date (file_header os req path status))) _
        λ buf _.
          send_data-IsGood os (record c { io = record (c.io) { readfd = fd; size = length buf } })
            buf true (w, (req, held, omega arith, inl zero))

answer_error-IsGood :
    (os : Os) (c : Connection) (req : Request)
    → IsWriting c
    → Ensures IsGood (answer_error os c req)
unfolding answer_error
answer_error-IsGood os c req w = Ensures-bind IsGood (err_status_code req.error_code) _ λ status _.
    Ensures-bind IsGood (err_resp req.error_code) _ λ body _.
      Ensures-bind IsGood
        (copy 4096 (build_http_resp_header os.date (error_header req status body) ++ body)) _
        λ buf _. send_data-IsGood os (sized c buf) buf false w

answer_opened-IsGood :
    (os : Os) (c : Connection) (req : Request) (path : Bytes) (fd : Option ℕ)
    → c.interest ≡ epollout
    → c.io.req ≡ some req
    → c.io.readfd ≡ 0
    → req.error_code ≡ 0
    → Ensures IsGood (answer_opened os c req path fd)
unfolding answer_opened
answer_opened-IsGood os c req path none w held shut zero =
    let req' = record req { error_code = err_not_found } in
    answer_error-IsGood os (record c { io = record (c.io) { req = some req' } }) req'
      (w, (req', refl, omega arith, inr shut))
answer_opened-IsGood os c req path (some fd) w held shut zero =
    answer_file-IsGood os c req path fd w held zero

answer-IsGood :
    (conf : Config) (os : Os) (c : Connection) (req : Request)
    → c.interest ≡ epollout
    → c.io.req ≡ some req
    → c.io.readfd ≡ 0
    → req.error_code < 5
    → Ensures IsGood (answer conf os c req)
unfolding answer
answer-IsGood conf os c req w held shut small =
    Ensures-if IsGood (req.error_code == 0) _ _
      (λ zero.
        Ensures-bind IsGood (copy 4096 (conf.root ++ req.uri)) _
          λ path _. answer_opened-IsGood os c req path _ w held shut ((==_iff _ 0).0 zero))
      (λ error. answer_error-IsGood os c req (w, (req, held, small, inr shut)))

finish-IsGood :
    (os : Os) (c : Connection) (req : Request) → IsWriting c → Ensures IsGood (finish os c req)
unfolding finish
finish-IsGood os c req w =
    Ensures-if IsGood (req.method == post && str_eq req.content_type (codes "text/html")) _ _
      (λ page.
        Ensures-bind IsGood (append_post_reponse [] req.post_data) _
          λ buf _. send_data-IsGood os (sized c buf) buf false w)
      (λ plain. unfold reset_epoll in (refl, refl, refl))

stream-IsGood :
    (os : Os) (c : Connection) (req : Request) (r : Option Bytes)
    → IsWriting c
    → Ensures IsGood (stream os c req r)
unfolding stream
stream-IsGood os c req none w = tt
stream-IsGood os c req (some []) w = finish-IsGood os c req w
stream-IsGood os c req (some (b ∷ bs)) w = send_data-IsGood os (sized c (b ∷ bs)) (b ∷ bs) true w

handle_fresh-IsGood :
    (conf : Config) (os : Os) (c : Connection) (req : Request)
    → IsWriting c
    → c.io.req ≡ some req
    → Ensures IsGood (handle_fresh conf os c (some req))
unfolding handle_fresh
handle_fresh-IsGood conf os c req w held =
    Ensures-if IsGood (c.io.readfd == 0) _ _
      (λ shut. answer-IsGood conf os c req w.0 held ((==_iff _ 0).0 shut) (ground arith))
      (λ opened. stream-IsGood os c req os.read_file w)

handle_buffer-IsGood :
    (conf : Config) (os : Os) (c : Connection) (buf : Option Bytes)
    → IsWriting c
    → Ensures IsGood (handle_buffer conf os c buf)
unfolding handle_buffer
handle_buffer-IsGood conf os c (some buf) w = send_data-IsGood os c buf false w
handle_buffer-IsGood conf os c none (w, (req, held, small, file)) =
    subst (λ r. Ensures IsGood (handle_fresh conf os c r)) (sym held)
      (handle_fresh-IsGood conf os c req (w, (req, held, small, file)) held)

-- A connection that waits to write keeps its phase's shape through `handle_out`, whatever the
-- system answers: afterwards it either reads with nothing held, or writes with a request whose
-- error code lies in the tables, and with a file open only where that code is 0.
pub handle_out-IsGood :
    (conf : Config) (os : Os) (c : Connection) {c' : Connection}
    → c.interest ≡ epollout
    → IsGood c
    → handle_out conf os c ≡ some c'
    → IsGood c'
unfolding handle_out
handle_out-IsGood conf os c w good h =
    Ensures-some IsGood _ (handle_buffer-IsGood conf os c c.io.buf (w, rw w at good)) h

code-lt : (r : Request) → IsAnswerable r → r.error_code < 5
code-lt r a = omega (arith, a.code_is)

-- A connection that reads keeps its phase's shape through `handle_in`: it goes on reading, or it
-- holds a request and waits to write.
pub handle_in-IsGood :
    (conf : Config) (c : Connection) (r : RecvResult) {c' : Connection}
    → c.interest ≡ epollin
    → IsGood c
    → handle_in conf c r ≡ some c'
    → IsGood c'
unfolding handle_in
handle_in-IsGood conf c hung_up w good h = subst IsGood (some-injective _ _ h) good
handle_in-IsGood conf c recv_failed w good h = subst IsGood (some-injective _ _ h) good
handle_in-IsGood conf c (received bytes) w good h =
    let (text, _, parsed) = >>=-eq-some (copy 4096 (cstr bytes)) _ h in
    let (req, found, done) = >>=-eq-some (parse_http_req text conf) _ parsed in
    let answerable = parse_http_req-IsAnswerable text conf found in
    let idle : InPhase epollin c.io = rw w at good in
    subst IsGood (some-injective _ _ done) (req, refl, code-lt req answerable, inr idle.2)

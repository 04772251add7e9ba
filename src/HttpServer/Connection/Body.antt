-- ===== src/HttpServer/Connection/Body.antt =====
-- A whole answer with a file: what reaches the socket over the calls of `handle_out`.
use network_system_hw.Base.{
  ℕ, ◌<◌, ◌≡◌, ◌≢◌, refl, sym, ap, ◌∙◌, inl, inr, Bool, true, false, List, [], ◌∷◌, ◌++◌,
  append_assoc, append-nil, Option, none, some, arith, ◌==◌, if◌then◌else◌, Bool-cases, ◌>>=◌,
  length, take_all, All, Bytes, codes, str_eq_iff, lt→ltb,
}
use network_system_hw.HttpServer.Config.{Config}
use network_system_hw.HttpServer.Request.{Request, post}
use network_system_hw.HttpServer.Response.{append_post_reponse}
use network_system_hw.HttpServer.Connection.{
  epollin, epollout, Connection, Os, wrote, send_data, send_sized, send_outcome, after_send,
  reset_epoll, finish, stream, handle_out,
}

-- What is sent behind the file.
abbrev pub post_page : Request → Bytes
post_page req = codes "<h1>Post Data</h1><pre>" ++ (req.post_data ++ codes "</pre>")

abbrev pub tail_of : Request → Bytes
tail_of req = if req.method == post then post_page req else []

-- `handle_out` for each writable event in turn, with what the system answers each time.
unfoldable pub serve : Config → List Os → Connection → Option Connection
serve conf [] c = some c
serve conf (os ∷ rest) c = handle_out conf os c >>= serve conf rest

-- The event reads `bytes`, which are not empty, and sends all of them.
pub record Passes (os : Os) : Type 0 where
  pub head : ℕ
  pub rest : Bytes
  pub reads : os.read_file ≡ some (head ∷ rest)
  pub sends : os.send_result ≡ wrote (length (head ∷ rest))

abbrev pub got : Option Bytes → Bytes
got none = []
got (some bytes) = bytes

-- What the events read, one behind the other.
abbrev pub gather : List Os → Bytes
gather [] = []
gather (os ∷ rest) = got os.read_file ++ gather rest

-- The connection behind a full `send`.
abbrev pub passed : Connection → Bytes → Connection
passed c bytes = record c {
  io = record (c.io) { size = length bytes; buf = none };
  sent = c.sent ++ bytes;
}

pub send_all :
    (os : Os) (c : Connection) (buf : Bytes) (more : Bool)
    → os.send_result ≡ wrote (length buf)
    → send_sized os c buf (length buf) more ≡ after_send os.time (passed c buf) more
unfolding send_data send_outcome
send_all os c buf more h = rw (h, take_all) (rw take_all)

finish_get :
    (os : Os) (c : Connection) (req : Request)
    → (req.method == post) ≡ false
    → finish os c req ≡ some (reset_epoll os.time c)
unfolding finish
finish_get os c req gets = rw gets

finish-post :
    (os : Os) (c : Connection) (req : Request)
    → (req.method == post) ≡ true
    → req.content_type ≡ codes "text/html"
    → length (post_page req) < 1024
    → os.send_result ≡ wrote (length (post_page req))
    → finish os c req ≡ some (reset_epoll os.time (passed c (post_page req)))
unfolding finish append_post_reponse after_send
finish-post os c req posts page short sends =
    let html = (str_eq_iff req.content_type (codes "text/html")).1 page in
    let fits = lt→ltb (length (post_page req)) 1024 short in
    let fits' = lt→ltb (length (post_page req)) 4096 (omega arith) in
    rw (posts, html, fits, fits') (ap some (send_all os c (post_page req) false sends))

pub reset-closed :
    (time : ℕ) (c : Connection)
    → c.io.readfd ≢ 0
    → (reset_epoll time c).closed ≡ c.closed ++ (c.io.readfd ∷ [])
unfolding reset_epoll
reset-closed time c h = ground arith

pub record Streams (req : Request) (fd : ℕ) (c : Connection) : Type 0 where
  pub req_is : c.io.req ≡ some req
  pub buf_is : c.io.buf ≡ none
  pub file_is : c.io.readfd ≡ fd

module _ (conf : Config) (req : Request) (fd : ℕ) (opened : fd ≢ 0) where
  pub streaming :
      (os : Os) (c : Connection)
      → Streams req fd c
      → handle_out conf os c ≡ stream os c req os.read_file
  unfolding handle_out
  streaming os c s = ground arith

  stream_chunk :
      (os : Os) (c : Connection) (p : Passes os)
      → Streams req fd c
      → handle_out conf os c ≡ some (record (passed c (p.head ∷ p.rest)) { interest = epollout })
  unfolding stream after_send
  stream_chunk os c p s =
      streaming os c s
      ∙ ap (stream os c req) p.reads
      ∙ ap some (send_all os c (p.head ∷ p.rest) true p.sends)

  pub serve-stream :
      (oss : List Os) (c : Connection)
      → All Passes oss
      → Streams req fd c
      → (c' : Connection) × (serve conf oss c ≡ some c')
        × Streams req fd c'
        × (c'.sent ≡ c.sent ++ gather oss)
        × (c'.closed ≡ c.closed)
  unfolding serve
  serve-stream [] c ps s = (c, refl, s, sym (append-nil c.sent), refl)
  serve-stream (os ∷ oss) c (p, ps) s =
      let next = record (passed c (p.head ∷ p.rest)) { interest = epollout } in
      let (c', run, s', text, files) =
        serve-stream oss next ps
          (record { req_is = s.req_is; buf_is = refl; file_is = s.file_is }) in
      let joined : c'.sent ≡ c.sent ++ (got os.read_file ++ gather oss) =
        text
        ∙ append_assoc c.sent (p.head ∷ p.rest) (gather oss)
        ∙ ap (λ r. c.sent ++ (got r ++ gather oss)) (sym p.reads) in
      (c', rw (stream_chunk os c p s) run, s', joined, files)

  -- The event that finds the end of the file.
  pub stream_end :
      (os : Os) (c : Connection)
      → Streams req fd c
      → os.read_file ≡ some []
      → length (post_page req) < 1024
      → os.send_result ≡ wrote (length (post_page req))
      → (req.method ≡ post → req.content_type ≡ codes "text/html")
      → (c' : Connection) × (handle_out conf os c ≡ some c')
        × (c'.sent ≡ c.sent ++ tail_of req)
        × (c'.interest ≡ epollin)
        × (c'.io.readfd ≡ 0)
        × (c'.closed ≡ c.closed ++ (fd ∷ []))
  unfolding stream after_send reset_epoll
  stream_end os c s end short sends page = elim (Bool-cases (req.method == post)) [
    | inl posts ↦
        let p = passed c (post_page req) in
        (
          reset_epoll os.time p,
          to_end ∙ finish-post os c req posts (page (ground arith)) short sends,
          rw posts,
          refl,
          refl,
          reset-closed os.time p (λ e. opened (sym s.file_is ∙ e))
              ∙ ap (λ f. c.closed ++ (f ∷ [])) s.file_is,
        )
    | inr gets ↦ (
      reset_epoll os.time c,
      to_end ∙ finish_get os c req gets,
      rw gets (sym (append-nil c.sent)),
      refl,
      refl,
      reset-closed os.time c (λ e. opened (sym s.file_is ∙ e))
          ∙ ap (λ f. c.closed ++ (f ∷ [])) s.file_is,
    )
  ]
    where
      to_end : handle_out conf os c ≡ finish os c req
      to_end = streaming os c s ∙ ap (stream os c req) end

  -- The same event for a request whose type is not that of a page.
  pub stream_end_plain :
      (os : Os) (c : Connection)
      → Streams req fd c
      → os.read_file ≡ some []
      → req.content_type ≢ codes "text/html"
      → (c' : Connection) × (handle_out conf os c ≡ some c')
        × (c'.sent ≡ c.sent)
        × (c'.interest ≡ epollin)
  unfolding stream finish reset_epoll
  stream_end_plain os c s end plain = (
    reset_epoll os.time c,
    streaming os c s
        ∙ ap (stream os c req) end
        ∙ ground (arith, str_eq_iff req.content_type (codes "text/html")),
    refl,
    refl,
  )

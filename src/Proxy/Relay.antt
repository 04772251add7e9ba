-- ===== src/Proxy/Relay.antt =====
-- What one connection of the proxy does, from the request to the log line.
use network_system_hw.Base.{
  ℕ, ◌+◌, ◌^◌, ◌≤◌, ◌<◌, ◌≡◌, refl, sym, ap, subst, ◌∙◌, ◌⊎◌, inl, inr, true, false, List, [], ◌∷◌,
  ◌++◌, none, some, some-injective, ◌>>=◌, lt→ltb, arith, All, length, take_short, length-append,
  Bytes,
}
use network_system_hw.Proxy.{
  maxbuf, Port, Request, closed, unsupported, bad_address, proxied, read_request, request_text, Net,
  log_info, relay, Session, given_up, serve_request, connection_handler,
}

-- What the server has sent.
abbrev pub response : List (Bytes × ℕ) → Bytes
response [] = []
response ((chunk, took) ∷ chunks) = chunk ++ response chunks

-- `send` takes the whole of each chunk.
abbrev pub AllTaken : List (Bytes × ℕ) → Type 0
AllTaken = All (λ c. length (c.0) ≤ c.1)

relay-response :
    (total : ℕ) (chunks : List (Bytes × ℕ))
    → AllTaken chunks
    → total + length (response chunks) < 2 ^ 31
    → relay total chunks ≡ some (response chunks, total + length (response chunks))
unfolding relay
relay-response total [] taken small =
    let same : total ≡ total + 0 = omega arith in ap (λ n. some ([], n)) same
relay-response total ((chunk, took) ∷ chunks) (whole, taken) small =
    let size = length-append chunk (response chunks) in
    let rest = relay-response (total + length chunk) chunks taken (omega (arith, size)) in
    let sum : total + length chunk + length (response chunks)
        ≡ total + length (chunk ++ response chunks) =
      omega (arith, size) in
    rw
      (
        lt→ltb (total + length chunk) (2 ^ 31) (omega (arith, size)),
        rest,
        take_short took chunk whole,
        sum,
      )
      refl

-- A request that names a server: if the server is reached, `send` takes what it is given, the
-- response is shorter than 2 ^ 31 bytes and neither the request nor the log line is too long for
-- its array, the server gets the request for the path, the client gets the response byte for
-- byte, the log line has the request's address and the response's length, and both descriptors
-- are closed.
pub connection_handler-relays :
    (net : Net) (address : Bytes) (port : Port) (path uri version line : Bytes)
    → read_request net.received net.stale ≡ some (proxied address port path uri version)
    → net.connected ≡ true
    → AllTaken net.chunks
    → length (response net.chunks) < 2 ^ 31
    → length (request_text address path version) < maxbuf
    → log_info net.date net.peer uri (length (response net.chunks)) ≡ some line
    → connection_handler net
      ≡ some (record {
        to_client = response net.chunks;
        to_server = request_text address path version;
        logged = some line;
        closes = true;
      })
unfolding connection_handler serve_request
connection_handler-relays net address port path uri version line read up taken small fits logs =
    let start : 0 + length (response net.chunks) ≡ length (response net.chunks) = omega arith in
    let relayed = relay-response 0 net.chunks taken (omega arith) in
    let room = lt→ltb (length (request_text address path version)) maxbuf fits in
    rw (read, up, room, relayed, start, logs) refl

-- Nothing is passed on, logged or closed.
abbrev pub IsGivenUp : Session → Type 0
IsGivenUp s = (s.to_server ≡ []) × (s.logged ≡ none) × (s.closes ≡ false)

abbrev pub NamesServer : Request → Type 0
NamesServer request =
    (address : Bytes) × (port : Port) × (path : Bytes) × (uri : Bytes) × (version : Bytes)
    × (request ≡ proxied address port path uri version)

given_up-IsGivenUp : (text : Bytes) (s : Session) → some (given_up text) ≡ some s → IsGivenUp s
given_up-IsGivenUp text s e = subst IsGivenUp (some-injective _ _ e) (refl, refl, refl)

serve_request-IsGivenUp :
    (net : Net) (request : Request) (s : Session)
    → serve_request net request ≡ some s
    → NamesServer request ⊎ IsGivenUp s
unfolding serve_request
serve_request-IsGivenUp net closed s e = inr (given_up-IsGivenUp _ s e)
serve_request-IsGivenUp net (unsupported method) s e = inr (given_up-IsGivenUp _ s e)
serve_request-IsGivenUp net (bad_address uri) s e = inr (given_up-IsGivenUp _ s e)
serve_request-IsGivenUp net (proxied address port path uri version) s e =
    inl (address, port, path, uri, version, refl)

-- Only a request that names a server is passed on and logged: behind each other answer of
-- `read_request` the server gets nothing, no line is logged, and the connection of the client is
-- left open.
pub connection_handler-IsGivenUp :
    (net : Net) (request : Request) (s : Session)
    → read_request net.received net.stale ≡ some request
    → connection_handler net ≡ some s
    → NamesServer request ⊎ IsGivenUp s
unfolding connection_handler
connection_handler-IsGivenUp net request s read e =
    serve_request-IsGivenUp net request s (sym (ap (λ m. m >>= λ r. serve_request net r) read) ∙ e)

-- ===== src/HttpServer/EventLoop.antt =====
-- The loop over epoll events in `main` of http_server/server.c, with `handle_accept`,
-- `unregister_event` and `is_timeout`.
pub mod Reachable
pub mod Batches
use network_system_hw.Base.{
  ℕ, zero, suc, ◌+◌, ◌-◌, Bool, not, ◌&&◌, List, [], ◌∷◌, ◌++◌, Option, none, some, if◌then◌else◌,
  ltb, leb, ◌==◌, ◌>>=◌, ◌≡◌,
}
use network_system_hw.HttpServer.Config.{Config}
use network_system_hw.HttpServer.Connection.{
  Interest, epollin, epollout, Io, Connection, Os, RecvResult, handle_in, handle_out,
}

abbrev pub epoll_size_max : ℕ
epoll_size_max = 1024

-- The open connections in the order in which they came. An event's `data.ptr` is a position here.
pub record Server : Type 0 where
  pub events_count : ℕ
  pub connections : List Connection

abbrev pub started : Server
started = record { events_count = 1; connections = [] }

-- What `epoll_wait` reports: the listening socket, with the answer of `accept`, or a connection
-- that can be read or written.
pub data Event : Type 0 where
  incoming : Option ℕ → Event
  readable : ℕ → RecvResult → Event
  writable : ℕ → Os → Event

-- `calloc`, `connfd` set, registered for EPOLLIN.
abbrev pub fresh : ℕ → Connection
fresh fd = record {
  io = record {
    connfd = fd;
    readfd = 0;
    timestamp = 0;
    keepalive_time = 0;
    req = none;
    buf = none;
    size = 0;
  };
  interest = epollin;
  sent = [];
  closed = [];
}

unfoldable pub handle_accept : Server → Option ℕ → Server
handle_accept s none = s
handle_accept s (some fd) = record {
  events_count = s.events_count + 1;
  connections = s.connections ++ (fresh fd ∷ []);
}

-- The handler works on the `epoll_io_t` that the event points to.
unfoldable pub at_connection :
    (Connection → Option Connection) → ℕ → List Connection → Option (List Connection)
at_connection f i [] = none
at_connection f zero (c ∷ cs) = f c >>= λ c'. some (c' ∷ cs)
at_connection f (suc i) (c ∷ cs) = at_connection f i cs >>= λ cs'. some (c ∷ cs')

unfoldable pub on_event : Config → Server → Event → Option Server
on_event conf s (incoming answer) =
    some (if leb epoll_size_max s.events_count then s else handle_accept s answer)
on_event conf s (readable i r) = at_connection (λ c. handle_in conf c r) i s.connections >>= λ cs.
    some (record s { connections = cs })
on_event conf s (writable i os) =
    at_connection (λ c. handle_out conf os c) i s.connections >>= λ cs.
    some (record s { connections = cs })

-- `timestamp + keepalive_time < time(0)`, once an answer was finished.
unfoldable pub is_timeout : ℕ → Io → Bool
is_timeout now io = not (io.timestamp == 0) && ltb (io.timestamp + io.keepalive_time) now

abbrev remove_at : ℕ → List Connection → List Connection
remove_at i [] = []
remove_at zero (c ∷ cs) = cs
remove_at (suc i) (c ∷ cs) = c ∷ remove_at i cs

unfoldable pub unregister_event : Server → ℕ → Server
unregister_event s i = record {
  events_count = s.events_count - 1;
  connections = remove_at i s.connections;
}

-- epoll reports a connection only for the event that it is registered for.
pub data Registered (want : Interest) : ℕ → List Connection → Type 0 where
  here : {c : Connection} {cs : List Connection} → c.interest ≡ want → Registered want zero (c ∷ cs)
  there :
      {c : Connection} {cs : List Connection} {i : ℕ}
      → Registered want i cs
      → Registered want (suc i) (c ∷ cs)

abbrev pub Reported : Event → Server → Type 0
Reported (incoming answer) s = Unit
Reported (readable i r) s = Registered epollin i s.connections
Reported (writable i os) s = Registered epollout i s.connections

-- The states that the loop passes through from `s` on, for any order of events.
pub data Reach (conf : Config) (s : Server) : Server → Type 0 where
  stay : Reach conf s s
  next :
      {t u : Server} (e : Event)
      → Reach conf s t
      → Reported e t
      → on_event conf t e ≡ some u
      → Reach conf s u

-- ===== src/Dfc/Server/Threads.antt =====
-- The loop of `main` of dfc/server.c, and the threads of its connections, which share the files. A
-- step of one is a request or the packets of one file.
use network_system_hw.Base.{
  ◌≡◌, ◌⊎◌, ℕ, zero, suc, List, [], ◌∷◌, ◌++◌, Option, none, some, ◌>>=◌, Ensures, Ensures-bind,
  Ensures-some, All, Bytes,
}
use network_system_hw.Dfc.Client.{Answered}
use network_system_hw.Dfc.Config.{User}
use network_system_hw.Dfc.Packet.{buffer_of}
use network_system_hw.Dfc.Partition.{Directory}
use network_system_hw.Dfc.Server.{Disk}
use network_system_hw.Dfc.Server.Loop.{Serving, serve, store_file}
use network_system_hw.Dfc.Server.Steps.{
  IsOwned, Descends, IsConfined, serve-IsConfined, store_file-IsConfined,
}

-- The files, and for each connection in order of its `accept` the path that it receives.
pub record Threads : Type 0 where
  pub files : Directory
  pub receives : List (Option Bytes)

-- `accept` fails or brings a connection, `recv` brings connection `i` a request, or the packets of
-- the file that it waits for.
pub data Event : Type 0 where
  refused accepted : Event
  request : ℕ → Bytes → Event
  packets : ℕ → List Bytes → Event

abbrev with_first : List (Option Bytes) → Serving → Threads
with_first rs s = record { files = s.files; receives = s.receives ∷ rs }

abbrev behind : Option Bytes → Threads → Threads
behind r t = record t { receives = r ∷ t.receives }

-- Thread `i` takes its step.
unfoldable pub on_thread :
    (Serving → Option Serving) → Directory → ℕ → List (Option Bytes) → Option Threads
on_thread f files i [] = none
on_thread f files zero (r ∷ rs) =
    f (record { files = files; receives = r }) >>= λ s. some (with_first rs s)
on_thread f files (suc i) (r ∷ rs) = on_thread f files i rs >>= λ t. some (behind r t)

abbrev asks : List User → (Directory → Disk) → Bytes → Serving → Option Serving
asks users fs q s = serve users fs s q >>= λ a. some a.state

unfoldable pub on_event : List User → (Directory → Disk) → Threads → Event → Option Threads
unfolding on_thread
on_event users fs t refused = some t
on_event users fs t accepted = some (record t { receives = t.receives ++ (none ∷ []) })
on_event users fs t (request i q) = on_thread (asks users fs q) t.files i t.receives
on_event users fs t (packets i ps) = on_thread (λ s. store_file s ps) t.files i t.receives

unfoldable pub on_events : List User → (Directory → Disk) → Threads → List Event → Option Threads
unfolding on_event
on_events users fs t [] = some t
on_events users fs t (e ∷ es) = on_event users fs t e >>= λ u. on_events users fs u es

abbrev initial : Directory → Serving
initial files = record { files = files; receives = none }

-- No file but those of the users has changed, and no thread is about to.
pub record AreConfined (users : List User) (files : Directory) (t : Threads) : Type 0 where
  pub files_kept : (path : Bytes) → IsOwned users path ⊎ (t.files path ≡ files path)
  pub receives_owned : All (λ r. (path : Bytes) → r ≡ some path → IsOwned users path) t.receives

on_thread-AreConfined :
    (users : List User) (start : Directory) (f : Serving → Option Serving)
    → ((s : Serving)
        → IsConfined users (initial start) s
        → Ensures (IsConfined users (initial start)) (f s))
    → (files : Directory) (i : ℕ) (rs : List (Option Bytes))
    → AreConfined users start (record { files = files; receives = rs })
    → Ensures (AreConfined users start) (on_thread f files i rs)
unfolding on_thread
on_thread-AreConfined users start f kept files i [] c = tt
on_thread-AreConfined users start f kept files zero (r ∷ rs) c =
    let s : Serving = record { files = files; receives = r } in
    Ensures-bind (AreConfined users start) (f s) _ λ t e.
      let done =
        Ensures-some (IsConfined users (initial start)) (f s)
          (kept s (record { files_kept = c.files_kept; receives_owned = c.receives_owned.0 })) e in
      record {
        files_kept = done.files_kept;
        receives_owned = (done.receives_owned, c.receives_owned.1);
      }
on_thread-AreConfined users start f kept files (suc i) (r ∷ rs) c =
    let P = AreConfined users start in
    Ensures-bind P (on_thread f files i rs) _ λ t e.
      let done =
        Ensures-some P (on_thread f files i rs)
          (on_thread-AreConfined users start f kept files i rs
            (record { files_kept = c.files_kept; receives_owned = c.receives_owned.1 }))
          e in
      record {
        files_kept = done.files_kept;
        receives_owned = (c.receives_owned.0, done.receives_owned);
      }

add_idle :
    (users : List User) (rs : List (Option Bytes))
    → All (λ r. (path : Bytes) → r ≡ some path → IsOwned users path) rs
    → All (λ r. (path : Bytes) → r ≡ some path → IsOwned users path) (rs ++ (none ∷ []))
add_idle users [] a = ((λ path e. cc), tt)
add_idle users (r ∷ rs) a = (a.0, add_idle users rs a.1)

-- The path of a request does not climb.
abbrev pub DescendsIn : Event → Type 0
DescendsIn refused = Unit
DescendsIn accepted = Unit
DescendsIn (request i q) = Descends (buffer_of q)
DescendsIn (packets i ps) = Unit

on_event-AreConfined :
    (users : List User) (fs : Directory → Disk) (start : Directory) (t : Threads) (e : Event)
    → DescendsIn e
    → AreConfined users start t
    → Ensures (AreConfined users start) (on_event users fs t e)
unfolding on_event
on_event-AreConfined users fs start t refused d c = c
on_event-AreConfined users fs start t accepted d c = record {
  files_kept = c.files_kept;
  receives_owned = add_idle users t.receives c.receives_owned;
}
on_event-AreConfined users fs start t (request i q) d c =
    on_thread-AreConfined users start (asks users fs q)
      (λ s kept. Ensures-bind (IsConfined users (initial start)) (serve users fs s q) _ λ a e.
        Ensures-some (λ (b : Answered Serving). IsConfined users (initial start) b.state)
          (serve users fs s q) (serve-IsConfined users fs (initial start) s q kept d) e)
      t.files i t.receives c
on_event-AreConfined users fs start t (packets i ps) d c =
    on_thread-AreConfined users start (λ s. store_file s ps)
      (λ s kept. store_file-IsConfined users (initial start) s ps kept) t.files i t.receives c

pub on_events-AreConfined :
    (users : List User) (fs : Directory → Disk) (start : Directory) (es : List Event) (t : Threads)
    → All DescendsIn es
    → AreConfined users start t
    → Ensures (AreConfined users start) (on_events users fs t es)
unfolding on_events
on_events-AreConfined users fs start [] t d c = c
on_events-AreConfined users fs start (e ∷ es) t d c =
    Ensures-bind (AreConfined users start) (on_event users fs t e) _ λ u done.
      on_events-AreConfined users fs start es u d.1 (
        Ensures-some (AreConfined users start) _ (on_event-AreConfined users fs start t e d.0 c)
          done)

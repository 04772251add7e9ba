-- ===== src/Dfc/Server/Loop.antt =====
-- The loop of `connection_handler` of dfc/server.c as the peer of a client's thread: the reply to a
-- request, and the file that is sent or received behind it. `fs` is the file system over the
-- server's files. As the peer of a client it is an ideal connection: each `recv`, here and at the
-- client, brings one whole packet, where a stream may bring a part of one or more than one.
use network_system_hw.Base.{true, List, [], Option, none, some, ◌>>=◌, Bytes}
use network_system_hw.Dfc.Config.{User}
use network_system_hw.Dfc.Client.{Answered, Peer}
use network_system_hw.Dfc.Packet.{buffer_of}
use network_system_hw.Dfc.Partition.{Directory, put_file}
use network_system_hw.Dfc.Server.{
  Disk, Action, next_request, send_content, receive_to, connection_handler,
}
use network_system_hw.Dfc.Transfer.{Received, finished, broken, send_file, receive_file}

-- The server's files, and the path of the file that it is about to receive.
pub record Serving : Type 0 where
  pub files : Directory
  pub receives : Option Bytes

abbrev pub answered : Directory → Option Bytes → Bytes → List Bytes → Answered Serving
answered files receives reply arriving = record {
  state = record { files = files; receives = receives };
  sent = true;
  received = some reply;
  arriving = arriving;
  accepts = λ i. true;
}

-- `fopen` by "wb" has emptied the file that is received.
abbrev pub begin : Directory → Bytes → Action → Option (Answered Serving)
begin files reply next_request = some (answered files none reply [])
begin files reply (send_content path content) =
    send_file (λ i. true) (some content) 0 none none >>= λ (ps, ok).
    some (answered files none reply ps)
begin files reply (receive_to path) = some (answered (put_file files path []) (some path) reply [])

unfoldable pub serve : List User → (Directory → Disk) → Serving → Bytes → Option (Answered Serving)
unfolding connection_handler
serve users fs s q =
    connection_handler users (fs s.files) true (buffer_of q) >>= λ a. begin s.files a.reply a.action

abbrev pub stored : Received → Bytes
stored (finished content) = content
stored (broken content) = content

abbrev pub keep : Serving → List Bytes → Option Bytes → Option Serving
keep s ps none = none
keep s ps (some path) = receive_file none ps >>= λ r.
    some (record { files = put_file s.files path (stored r); receives = none })

-- `receive_file(fp, sock, 0)`; `none` are packets of a file that the server does not wait for.
unfoldable pub store_file : Serving → List Bytes → Option Serving
store_file s ps = keep s ps s.receives

unfoldable pub server : List User → (Directory → Disk) → Peer Serving
unfolding serve store_file
server users fs = record { request = serve users fs; deliver = store_file }

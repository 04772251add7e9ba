-- ===== src/Dfc/Session/Parameters.antt =====
-- The parts and the packets that `main` of dfc/client.c gives to its threads.
use native.Mathlib.Nat.{mod-lt}
use network_system_hw.Base.{
  ℕ, suc, ◌+◌, ◌-◌, ◌<◌, ◌≡◌, refl, sym, ap, subst, ◌∙◌, Bool, true, false, List, [], ◌∷◌, Option,
  none, some, some-injective, if◌then◌else◌, arith, length, length-append, All, Bytes,
}
use network_system_hw.Base.Memory.{zeros, length-zeros}
use network_system_hw.Dfc.Client.Requests.{IsRequest}
use network_system_hw.Dfc.Packet.{packet_size, cmd_put, cmd_get, build_msg_packet}
use network_system_hw.Dfc.Packet.Messages.{FitsField, packet_of, build_msg_packet-packet_of}
use network_system_hw.Dfc.Placement.{Parts, assign, threads}

-- What a thread of a "put", or of another command, is asked to transfer.
abbrev pub PutParts : ℕ → Option Parts → Type 0
PutParts nh none = Unit
PutParts nh (some p) = (k : ℕ) × (p.first ≡ some k) × (k < nh) × (p.second < nh)

abbrev pub GetParts : ℕ → Option Parts → Type 0
GetParts nh none = Unit
GetParts nh (some p) = ((k : ℕ) → p.first ≡ some k → k < nh) × (p.second < nh)

assign-PutParts :
    (nh h : ℕ) (flag : Bool) (i : ℕ) (hosts : List Bool)
    → 0 < nh
    → All (PutParts nh) (assign nh h cmd_put flag i hosts)
unfolding assign
assign-PutParts nh h flag i [] pos = tt
assign-PutParts nh h flag i (true ∷ hosts) pos =
    ((_, refl, mod-lt _ pos, mod-lt _ pos), assign-PutParts nh h false (suc i) hosts pos)
assign-PutParts nh h flag i (false ∷ hosts) pos = (tt, assign-PutParts nh h true (suc i) hosts pos)

assign-GetParts :
    (nh h : ℕ) (flag : Bool) (i : ℕ) (hosts : List Bool)
    → 0 < nh
    → All (GetParts nh) (assign nh h cmd_get flag i hosts)
unfolding assign
assign-GetParts nh h flag i [] pos = tt
assign-GetParts nh h true i (true ∷ hosts) pos = (
  (λ k e. subst (λ j. j < nh) (some-injective _ _ e) (mod-lt _ pos), mod-lt _ pos),
  assign-GetParts nh h false (suc i) hosts pos,
)
assign-GetParts nh h false i (true ∷ hosts) pos =
    ((λ k e. cc, mod-lt _ pos), assign-GetParts nh h false (suc i) hosts pos)
assign-GetParts nh h flag i (false ∷ hosts) pos = (tt, assign-GetParts nh h true (suc i) hosts pos)

pub threads-PutParts :
    (h : ℕ) (hosts : List Bool) {ts : List (Option Parts)}
    → threads h cmd_put hosts ≡ some ts
    → All (PutParts (length hosts)) ts
unfolding threads
threads-PutParts h [] e = cc
threads-PutParts h (b ∷ hosts) e =
    subst (All (PutParts (length (b ∷ hosts)))) (some-injective _ _ e)
      (assign-PutParts (length (b ∷ hosts)) h _ 0 (b ∷ hosts) (omega arith))

pub threads-GetParts :
    (h : ℕ) (hosts : List Bool) {ts : List (Option Parts)}
    → threads h cmd_get hosts ≡ some ts
    → All (GetParts (length hosts)) ts
unfolding threads
threads-GetParts h [] e = cc
threads-GetParts h (b ∷ hosts) e =
    subst (All (GetParts (length (b ∷ hosts)))) (some-injective _ _ e)
      (assign-GetParts (length (b ∷ hosts)) h _ 0 (b ∷ hosts) (omega arith))

length-assign :
    (nh h cmd : ℕ) (flag : Bool) (i : ℕ) (hosts : List Bool)
    → length (assign nh h cmd flag i hosts) ≡ length hosts
unfolding assign
length-assign nh h cmd flag i [] = refl
length-assign nh h cmd flag i (true ∷ hosts) = ap suc (length-assign nh h cmd false (suc i) hosts)
length-assign nh h cmd flag i (false ∷ hosts) = ap suc (length-assign nh h cmd true (suc i) hosts)

pub length-threads :
    (h cmd : ℕ) (hosts : List Bool) {ts : List (Option Parts)}
    → threads h cmd hosts ≡ some ts
    → length ts ≡ length hosts
unfolding threads
length-threads h cmd [] e = cc
length-threads h cmd (b ∷ hosts) e =
    ap length (sym (some-injective _ _ e))
    ∙ length-assign (length (b ∷ hosts)) h cmd _ 0 (b ∷ hosts)

no_message :
    (cmd : ℕ) (conf : Option (Bytes × Bytes))
    → build_msg_packet cmd 0 none conf ≡ build_msg_packet cmd 0 (some []) conf
unfolding build_msg_packet
no_message cmd conf = refl

-- With `msg` set or not, `main` builds a request of the command.
pub build_msg_packet-IsRequest :
    (u w : Bytes) (fu : FitsField u) (fw : FitsField w) (cmd : ℕ) (pointed : Bool) (text : Bytes)
    → cmd < 256
    → 36 + length text < packet_size
    → (pkt : Bytes) × (build_msg_packet cmd 0 (if pointed then some text else none) (some (u, w))
        ≡ some pkt)
      × IsRequest u w fu fw cmd pkt
build_msg_packet-IsRequest u w fu fw cmd true text lt short =
    let n = packet_size - 36 - length text in
    (
      packet_of u w fu fw cmd 0 _,
      build_msg_packet-packet_of u w fu fw cmd 0 text lt (omega arith) short,
      (_, omega (arith, length-append text (zeros n), length-zeros n), refl),
    )
build_msg_packet-IsRequest u w fu fw cmd false text lt short = (
  packet_of u w fu fw cmd 0 (zeros (packet_size - 36)),
  no_message cmd (some (u, w))
      ∙ build_msg_packet-packet_of u w fu fw cmd 0 [] lt (omega arith) (omega arith),
  (zeros (packet_size - 36), length-zeros (packet_size - 36), refl),
)

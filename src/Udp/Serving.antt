-- ===== src/Udp/Serving.antt =====
-- `main` of udp/server.c: its start and its loop over requests.
use network_system_hw.Base.{
  arith, codes, subst, ℕ, suc, ◌≡◌, refl, sym, ap, ◌∙◌, Bool, true, false, Bool-cases, inl, inr,
  List, [], ◌∷◌, Option, none, some, some-injective, if◌then◌else◌, ltb, ◌==◌, ◌>>=◌, >>=-eq-some,
  Ensures, Ensures-bind, Ensures-if, Ensures-some, length, Bytes, copy, if_both,
}
use network_system_hw.Udp.Commands.{
  Files, Action, Response, says, list_dir, set_received_filename, serve_get, serve_put, respond,
  server_round,
}
use network_system_hw.Udp.Packet.{
  cmd_ls, cmd_put, cmd_get, cmd_exit, build_msg_packet, msg_type_of, msg_of, buffer_of,
}

-- What the process has sent and done, and the status with which it has ended, if it has.
pub record Process : Type 0 where
  pub status : Option ℕ
  pub replies : List (Bytes × Action)

abbrev after : Bytes × Action → Process → Process
after r p = record p { replies = r ∷ p.replies }

-- The loop over the requests that `recvfrom` brings; behind them it waits. `files i` are the files
-- at request `i`.
unfoldable pub serve_all : (ℕ → Files) → ℕ → List Bytes → Option Process
serve_all files i [] = some (record { status = none; replies = [] })
serve_all files i (d ∷ ds) =
    let rest = serve_all files (suc i) ds in
    server_round (files i) (buffer_of d) >>= λ (p, (action, exits)).
    if exits
    then some (record { status = some 0; replies = (p, action) ∷ [] })
    else (rest >>= λ q. some (after (p, action) q))

-- Whether `socket` and `setsockopt` succeed; `bind` may fail.
unfoldable pub server_main : ℕ → Bool → Bool → (ℕ → Files) → List Bytes → Option Process
unfolding serve_all
server_main argc socket setsockopt files ds =
    if argc == 2
    then (if socket
        then (if setsockopt
            then serve_all files 0 ds
            else some (record { status = some 1; replies = [] }))
        else some (record { status = some 1; replies = [] }))
    else some (record { status = some 1; replies = [] })

abbrev pub is_exit : Bytes → Bool
is_exit d = msg_type_of (buffer_of d) == cmd_exit

-- The requests up to the first that asks to exit
abbrev pub until_exit : List Bytes → List Bytes
until_exit [] = []
until_exit (d ∷ ds) = if is_exit d then d ∷ [] else d ∷ until_exit ds

abbrev pub has_exit : List Bytes → Bool
has_exit [] = false
has_exit (d ∷ ds) = if is_exit d then true else has_exit ds

-- Each reply is what the server's round gives for the request, and it exits behind that which asks
-- for it.
abbrev pub Answers : (ℕ → Files) → ℕ → List Bytes → List (Bytes × Action) → Type 0
Answers files i [] [] = Unit
Answers files i [] (r ∷ rs) = ⊥
Answers files i (d ∷ ds) [] = ⊥
Answers files i (d ∷ ds) (r ∷ rs) =
    (server_round (files i) (buffer_of d) ≡ some (r.0, (r.1, is_exit d)))
    × Answers files (suc i) ds rs

abbrev Exits : Bytes → Response → Type 0
Exits q r = r.exit_flag ≡ (msg_type_of q == cmd_exit)

serve_get-exit_flag : (o : Option Bytes) → (serve_get o).exit_flag ≡ false
serve_get-exit_flag none = refl
serve_get-exit_flag (some content) = refl

serve_put-exit_flag : (filename : Bytes) (b : Bool) → (serve_put filename b).exit_flag ≡ false
serve_put-exit_flag filename false = refl
serve_put-exit_flag filename true = refl

-- The server's flag is set by the request to exit only.
respond-Exits : (files : Files) (q : Bytes) → Ensures (Exits q) (respond files q)
unfolding respond
respond-Exits files q =
    let P = Exits q in
    let t = msg_type_of q in
    Ensures-if P (t == cmd_ls) _ _
      (λ ls. Ensures-bind P (copy 256 (list_dir b'\n' files.names)) _ λ text _. ground arith)
      λ _.
        Ensures-if P (t == cmd_exit) _ _ (λ e. sym e)
          λ stays.
            Ensures-if P (t == cmd_get) _ _
              (λ _.
                if_both P (ltb 0 (length (msg_of q))) (serve_get (files.open_read (msg_of q)))
                  (says (codes "server: get: Missing file operand\n"))
                  (serve_get-exit_flag (files.open_read (msg_of q)) ∙ sym stays) (sym stays))
              λ _.
                Ensures-if P (t == cmd_put) _ _
                  (λ _.
                    Ensures-if P (ltb 0 (length (msg_of q))) _ _
                      (λ _. Ensures-bind P (set_received_filename (msg_of q)) _ λ filename _.
                        serve_put-exit_flag filename (files.open_write filename) ∙ sym stays)
                      λ _. sym stays)
                  λ _. Ensures-bind P (copy 256 (msg_of q)) _ λ text _. sym stays

server_round-exits :
    (files : Files) (q p : Bytes) (action : Action) (exits : Bool)
    → server_round files q ≡ some (p, (action, exits))
    → exits ≡ (msg_type_of q == cmd_exit)
unfolding server_round
server_round-exits files q p action exits e =
    let (r, responds, rest) = >>=-eq-some (respond files q) _ e in
    let (packet, built, whole) = >>=-eq-some (build_msg_packet r.cmd_type (some r.msg)) _ rest in
    sym (ap (λ s. s.1.1) (some-injective _ _ whole))
    ∙ Ensures-some (Exits q) (respond files q) (respond-Exits files q) responds

-- What the loop has done with the requests
record Serves (files : ℕ → Files) (i : ℕ) (ds : List Bytes) (p : Process) : Type 0 where
  status_is : p.status ≡ (if has_exit ds then some 0 else none)
  answers : Answers files i (until_exit ds) p.replies

Serves-last :
    (files : ℕ → Files) (i : ℕ) (d : Bytes) (ds : List Bytes) (r : Bytes × Action)
    → is_exit d ≡ true
    → server_round (files i) (buffer_of d) ≡ some (r.0, (r.1, is_exit d))
    → Serves files i (d ∷ ds) (record { status = some 0; replies = r ∷ [] })
Serves-last files i d ds r last round = record {
  status_is = rw last refl;
  answers = rw last (round ∙ rw last refl, tt);
}

Serves-next :
    (files : ℕ → Files) (i : ℕ) (d : Bytes) (ds : List Bytes) (r : Bytes × Action) (p : Process)
    → is_exit d ≡ false
    → server_round (files i) (buffer_of d) ≡ some (r.0, (r.1, is_exit d))
    → Serves files (suc i) ds p
    → Serves files i (d ∷ ds) (after r p)
Serves-next files i d ds r p other round later = record {
  status_is = rw other later.status_is;
  answers = rw other (round ∙ rw other refl, later.answers);
}

abbrev goes_on : (ℕ → Files) → ℕ → List Bytes → Bytes × Action → Bool → Option Process
goes_on files i ds r exits =
    if exits
    then some (record { status = some 0; replies = r ∷ [] })
    else (serve_all files (suc i) ds >>= λ q. some (after r q))

-- If no request makes it write past an array, the loop answers the requests up to the first that
-- asks to exit, each as its round does, and no later one, and it ends, with status 0, just if
-- there is such a request.
pub serve_all-Serves :
    (files : ℕ → Files) (i : ℕ) (ds : List Bytes) (p : Process)
    → serve_all files i ds ≡ some p
    → (p.status ≡ (if has_exit ds then some 0 else none))
      × Answers files i (until_exit ds) p.replies
unfolding serve_all
serve_all-Serves files i ds p e = let s = serves i ds p e in (s.status_is, s.answers)
  where
    serves :
        (i : ℕ) (ds : List Bytes) (p : Process)
        → serve_all files i ds ≡ some p
        → Serves files i ds p
    serves i [] p e =
        subst (Serves files i []) (some-injective _ _ e) (record { status_is = refl; answers = tt })
    serves i (d ∷ ds) p e =
        let ((reply, (action, exits)), round, rest) =
          >>=-eq-some (server_round (files i) (buffer_of d)) _ e in
        let kind = server_round-exits (files i) (buffer_of d) reply action exits round in
        let asked = round ∙ ap (λ b. some (reply, (action, b))) kind in
        let r : Bytes × Action = (reply, action) in
        let rest' = sym (ap (goes_on files i ds r) kind) ∙ rest in
        elim (Bool-cases (is_exit d)) [
          | inl last ↦
              subst (Serves files i (d ∷ ds))
                (some-injective _ _ (sym (ap (goes_on files i ds r) last) ∙ rest'))
                (Serves-last files i d ds r last asked)
          | inr other ↦
              let (q, served, whole) =
                >>=-eq-some (serve_all files (suc i) ds) _
                  (sym (ap (goes_on files i ds r) other) ∙ rest') in
              subst (Serves files i (d ∷ ds)) (some-injective _ _ whole)
                (Serves-next files i d ds r q other asked (serves (suc i) ds q served))
        ]

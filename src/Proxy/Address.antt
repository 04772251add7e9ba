-- ===== src/Proxy/Address.antt =====
-- What `parse_address` makes of the forms of a request's address.
use network_system_hw.Base.{
  ℕ, ◌<◌, ◌^◌, to_int, to_int_small, ◌≡◌, refl, sym, ap, ◌∙◌, true, false, [], ◌∷◌, ◌++◌,
  append-nil, arith, if◌then◌else◌, length, take, drop, All, Bytes, codes, str_eq, str_eq_refl,
  Lacks, decimal, atoi-decimal_append, Lacks-decimal, digits_value,
}
use network_system_hw.Base.Memory.{take-append, drop-append}
use network_system_hw.Strutil.{lower}
use network_system_hw.Proxy.{
  is_host_end, host_of, port_of, path_of, unparsed, target, parse_host, parse_address,
}

-- No byte ends the address.
abbrev pub IsHost : Bytes → Type 0
IsHost = All (λ c. is_host_end c ≡ false)

-- A text that the address does not go on with.
abbrev Ends : Bytes → Type 0
Ends [] = Unit
Ends (c ∷ s) = is_host_end c ≡ true

host_of-append :
    (host rest : Bytes) → IsHost host → Ends rest → host_of (host ++ rest) ≡ (host, rest)
unfolding host_of
host_of-append [] [] h e = refl
host_of-append [] (c ∷ s) h e = rw e refl
host_of-append (c ∷ host) rest (clean, h) e =
    rw clean (ap (λ p. (c ∷ p.0, p.1)) (host_of-append host rest h e))

path_of-append : (front rest : Bytes) → Lacks b'/' front → path_of (front ++ rest) ≡ path_of rest
unfolding path_of
path_of-append [] rest h = refl
path_of-append (c ∷ front) rest h = ground (arith, path_of-append front rest)

Host-Lacks : (host : Bytes) → IsHost host → Lacks b'/' host
Host-Lacks [] h = refl
Host-Lacks (c ∷ host) (clean, h) = ground (arith, Host-Lacks host h)

parse_host-append :
    (host rest : Bytes)
    → IsHost host
    → Ends rest
    → parse_host (host ++ rest) ≡ target host (port_of rest) (path_of rest)
parse_host-append host rest h e =
    let split = host_of-append host rest h e in
    λ i.
      target ((split i).0) (port_of ((split i).1)) (path_of-append host rest (Host-Lacks host h) i)

-- A scheme in any case of letters, and an address in it.
parse_address-scheme :
    (scheme s : Bytes)
    → length scheme ≡ 7
    → lower scheme ≡ codes "http://"
    → parse_address (scheme ++ s) ≡ parse_host s
unfolding parse_address
parse_address-scheme scheme s len low =
    let t = ap (λ k. take k (scheme ++ s)) (sym len) ∙ take-append scheme s in
    let d = ap (λ k. drop k (scheme ++ s)) (sym len) ∙ drop-append scheme s in
    let name = codes "http://" in
    (λ i. if str_eq (lower (t i)) name then parse_host (d i) else unparsed)
    ∙ ap (λ l. if str_eq l name then parse_host s else unparsed) low
    ∙ ap (λ b. if b then parse_host s else unparsed) (str_eq_refl name)

-- `http://`, in any case of letters, and a host are followed by a port below 2 ^ 31 and a path, by a
-- path, or by nothing: `parse_address` finds the host, the port, 80 where there is none, and the path
-- without its first `/`.
pub parse_address_lem :
    (scheme host path : Bytes) (port : ℕ)
    → port < 2 ^ 31
    → length scheme ≡ 7
    → lower scheme ≡ codes "http://"
    → IsHost host
    → (parse_address (scheme ++ (host ++ (b':' ∷ (decimal port ++ (b'/' ∷ path)))))
        ≡ target host (false, port) path)
      × (parse_address (scheme ++ (host ++ (b'/' ∷ path))) ≡ target host (false, 80) path)
      × (parse_address (scheme ++ host) ≡ target host (false, 80) [])
unfolding path_of digits_value
parse_address_lem scheme host path port small len low h =
    let found = parse_address-scheme scheme in
    (
      found (host ++ (b':' ∷ (decimal port ++ (b'/' ∷ path)))) len low
          ∙ parse_host-append host (b':' ∷ (decimal port ++ (b'/' ∷ path))) h refl
          ∙ ap (λ p. target host p (path_of (decimal port ++ (b'/' ∷ path))))
              (ap to_int (atoi-decimal_append port (b'/' ∷ path) refl) ∙ to_int_small port small)
          ∙ ap (target host (false, port))
              (path_of-append (decimal port) (b'/' ∷ path) (Lacks-decimal b'/' port (omega arith))),
      found (host ++ (b'/' ∷ path)) len low ∙ parse_host-append host (b'/' ∷ path) h refl,
      ap (λ t. parse_address (scheme ++ t)) (sym (append-nil host))
          ∙ found (host ++ []) len low
          ∙ parse_host-append host [] h tt,
    )

-- ===== src/HttpServer/Config/Defaults.antt =====
-- The default content type of `init_config` is not counted.
use network_system_hw.Base.{
  ◌≡◌, ◌≢◌, refl, ◌∙◌, inl, inr, List, [], ◌∷◌, Option, none, some, arith, Ensures, Ensures-bind,
  Ensures-if, Ensures-some, Ensures-mono, >>=-eq-some, All, Bytes, codes, str_eq_iff, copy,
}
use network_system_hw.HttpServer.Config.Types.{get_content_type-HasType}
use network_system_hw.Strutil.{remove_endl, strip, split, lower}
use network_system_hw.HttpServer.Config.{
  Config, Reading, ready, defaults, next_argument, set_listen, set_root, store_indices, set_index,
  set_keepalive, directive, apply_tokens, is_directive, read_line, read_lines, fgets_all,
  init_config, get_content_type,
}

-- The first word of a line, in lower case: what `init_config` compares with the directives' names.
abbrev pub names : List Bytes → Bytes
names [] = []
names (t ∷ ts) = lower t

-- The line's words do not begin with a `ContentType` directive.
abbrev pub IsOther : Bytes → Type 0
IsOther buf =
    (ts : List Bytes)
    → split 32 128 (strip (remove_endl buf) b' ') (codes " \t") ≡ some ts
    → names ts ≢ codes "contenttype"

module _ (r : Reading) where
  abbrev Same : Reading → Type 0
  Same r' = r'.k ≡ r.k

  set_listen-k : (a : Option (Bytes × List Bytes)) → Ensures Same (set_listen r a)
  unfolding set_listen
  set_listen-k none = refl
  set_listen-k (some (t, ts)) = refl

  set_root-k : (a : Option (Bytes × List Bytes)) → Ensures Same (set_root r a)
  unfolding set_root
  set_root-k none = refl
  set_root-k (some (t, ts)) = Ensures-bind Same (copy 256 (strip t b'"')) _ λ root _. refl

  set_index-k : (ts : List Bytes) → Ensures Same (set_index r ts)
  unfolding set_index
  set_index-k ts = Ensures-bind Same (store_indices 0 r.conf.index ts) _ λ index _. refl

  set_keepalive-k : (a : Option (Bytes × List Bytes)) → Ensures Same (set_keepalive r a)
  unfolding set_keepalive
  set_keepalive-k none = refl
  set_keepalive-k (some (t, ts)) = refl

  directive-k :
      (name : Bytes) (ts : List Bytes)
      → name ≢ codes "contenttype"
      → Ensures Same (directive r name ts)
  unfolding directive
  directive-k name ts other =
      let a = next_argument ts in
      ground (
        arith,
        str_eq_iff name (codes "contenttype"),
        set_listen-k a,
        set_root-k a,
        set_index-k ts,
        set_keepalive-k a,
      )

  apply_tokens-k :
      (ts : List Bytes) → names ts ≢ codes "contenttype" → Ensures Same (apply_tokens r ts)
  unfolding apply_tokens
  apply_tokens-k [] other = refl
  apply_tokens-k (name ∷ []) other = refl
  apply_tokens-k (name ∷ t ∷ ts) other = directive-k (lower name) (t ∷ ts) other

  read_line-k : (buf : Bytes) → IsOther buf → Ensures Same (read_line r buf)
  unfolding read_line
  read_line-k buf other =
      Ensures-if Same (is_directive (strip (remove_endl buf) b' ')) _ _
        (λ h.
          Ensures-bind Same (split 32 128 (strip (remove_endl buf) b' ') (codes " \t")) _
            λ ts e. apply_tokens-k ts (other ts e))
        (λ h. refl)

read_lines-k :
    (ls : List Bytes) (r : Reading) → All IsOther ls → Ensures (λ r'. r'.k ≡ r.k) (read_lines r ls)
unfolding read_lines
read_lines-k [] r other = refl
read_lines-k (l ∷ ls) r other =
    Ensures-bind (λ r'. r'.k ≡ r.k) (read_line r l) _
      λ mid e.
        Ensures-mono (read_lines mid ls)
          (λ r' h. h ∙ Ensures-some (Same r) _ (read_line-k r l other.0) e)
          (read_lines-k ls mid other.1)

-- With a configuration file that has no `ContentType` line no name gets a content type, `.html`
-- included: the pair that `init_config` enters by default is not counted.
pub get_content_type_uncounted :
    (content : Bytes) (f : Bytes) {conf : Config} {t : Bytes}
    → All IsOther (fgets_all 128 content)
    → init_config (some content) ≡ some (ready conf)
    → get_content_type conf f ≡ some t
    → t ≡ []
unfolding init_config
get_content_type_uncounted content f {conf} {t} other h typed =
    let start : Reading = record { conf = defaults; k = 0 } in
    let (r, read, done) = >>=-eq-some (read_lines start (fgets_all 128 content)) _ h in
    let zero = Ensures-some _ _ (read_lines-k (fgets_all 128 content) start other) read in
    let none_counted : conf.count_content_types ≡ 0 = ground arith in
    elim (get_content_type-HasType conf f typed) [
      | inl (i, at, ext, e) ↦ absurd (omega (arith, at.lt_end))
      | inr (e, why) ↦ e
    ]

-- ===== src/Tests/Configs.antt =====
-- http_server/config.c
use network_system_hw.Base.{
  ◌≡◌, refl, ℕ, zero, suc, ◌++◌, [], ◌∷◌, none, some, All, replicate, Bytes, codes, arith, str_eq,
}
use network_system_hw.Strutil.{strip, split, lower, remove_endl}
use network_system_hw.HttpServer.Config.{
  Config, missing, ready, defaults, directive, next_argument, atoi_unsigned, fgets_all, init_config,
  file_extension, get_content_type,
}
use network_system_hw.HttpServer.Config.Types.{HasType, get_content_type-HasType}
use network_system_hw.HttpServer.Config.Defaults.{IsOther, get_content_type_uncounted}

abbrev pub file : Bytes
file = codes "#port\nListen  8888\n DocumentRoot \"/w\"\r\nContentType .js  text/js\n"

abbrev repeat : ℕ → Bytes → Bytes
repeat zero s = []
repeat (suc n) s = s ++ repeat n s

abbrev pub conf : Config
conf = record {
  port = 8888;
  keepalive_time = 0;
  count_content_types = 1;
  root = codes "/w";
  index = codes "index.html" ∷ replicate 31 [];
  file_extensions = codes ".js" ∷ replicate 31 [];
  content_types = codes "text/js" ∷ replicate 31 [];
}

init_file : init_config (some file) ≡ some (ready conf)
unfolding init_config strip split lower remove_endl directive next_argument atoi_unsigned str_eq
init_file = refl

-- A 33rd content type is stored behind the arrays.
too_many :
    init_config (some (codes "ContentType .a b\n" ++ repeat 32 (codes "ContentType .a b\n"))) ≡ none
unfolding init_config strip split lower remove_endl directive next_argument atoi_unsigned str_eq
too_many = refl

no_file : init_config none ≡ some missing
unfolding init_config
no_file = refl

js : get_content_type conf (codes "/a.b.js") ≡ some (codes "text/js")
unfolding get_content_type str_eq
js = refl

port_only :
    init_config (some (codes "Listen 90000\n")) ≡ some (ready (record defaults { port = 24464 }))
unfolding init_config strip split lower remove_endl directive next_argument atoi_unsigned str_eq
port_only = refl

html_lost : get_content_type (record defaults { port = 24464 }) (codes "a.html") ≡ some []
unfolding get_content_type str_eq
html_lost = refl

get_content_type_example : HasType conf (file_extension (codes "/a.b.js")) (codes "text/js")
get_content_type_example = get_content_type-HasType conf (codes "/a.b.js") js

others : All IsOther (fgets_all 128 (codes "Listen 90000\n"))
unfolding fgets_all strip split lower remove_endl
others = ((λ ts e f. ground arith), tt)

get_content_type_uncounted_example : ◌≡◌ {A = Bytes} [] []
get_content_type_uncounted_example =
    get_content_type_uncounted (codes "Listen 90000\n") (codes "a.html") others port_only html_lost

-- ===== src/Dfc/Strutil.antt =====
-- dfc/strutil.c. Its functions are written as those of http_server/strutil.c, but for `split`, which
-- Dfc/Config has.
use network_system_hw.Base.{ℕ, Bytes}
use network_system_hw.Strutil

abbrev pub remove_endl : Bytes → Bytes
remove_endl = Strutil.remove_endl

abbrev pub strip : Bytes → ℕ → Bytes
strip = Strutil.strip

abbrev pub split_first : Bytes → ℕ → Bytes × Bytes
split_first = Strutil.split_first

abbrev pub lower : Bytes → Bytes
lower = Strutil.lower

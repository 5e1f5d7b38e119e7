-- ===== src/Runs/Db/Text.antt =====
-- `String.prototype.trim` and `slice(0, n)` on UTF-16 code units.
use mathlib.Core.List.{reverse}
use mac_bennet.Prelude.{ℕ, Bool, ◌||◌, ◌&&◌, List, [], ◌∷◌, leb, ◌==◌, if◌then◌else◌}

-- White space and line terminators of ECMAScript.
pub is_white_space : ℕ → Bool
is_white_space c =
    (leb 9 c && leb c 13)
    || c == 32
    || c == 160
    || c == 0x1680
    || (leb 0x2000 c && leb c 0x200a)
    || c == 0x2028
    || c == 0x2029
    || c == 0x202f
    || c == 0x205f
    || c == 0x3000
    || c == 0xfeff

pub trim_start : List ℕ → List ℕ
trim_start [] = []
trim_start (c ∷ cs) = if is_white_space c then trim_start cs else c ∷ cs

unfoldable pub trim : List ℕ → List ℕ
unfolding trim_start is_white_space
trim s = reverse (trim_start (reverse (trim_start s)))

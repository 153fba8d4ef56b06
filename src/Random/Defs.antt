-- ===== src/Random/Defs.antt =====
-- random.cpp: `draw` is what `dist32(engine)` or `dist64(engine)` gives.
use pqnet.Common.{ℕ, ◌%◌, ltb, ◌==◌, if◌then◌else◌}
use pqnet.Common.Words.{add_uint, sub_uint, add_size, sub_size}

unfoldable pub uint32 : ℕ → ℕ → ℕ → ℕ
uint32 draw left right =
    if ltb left right
    then add_uint (draw % sub_uint right left) left
    else if left == right
    then left
    else add_uint (draw % sub_uint left right) right

unfoldable pub uint64 : ℕ → ℕ → ℕ → ℕ
uint64 draw left right =
    if ltb left right
    then add_size (draw % sub_size right left) left
    else if left == right
    then left
    else add_size (draw % sub_size left right) right

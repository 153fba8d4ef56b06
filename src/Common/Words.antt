-- ===== src/Common/Words.antt =====
-- `std::size_t` and the fixed-width unsigned integers: arithmetic modulo a power of two.
use Prim.Native.Nat.{ℕ, ◌+◌, ◌-◌, ◌*◌, ◌%◌, ◌^◌}

abbrev pub size_mod : ℕ
size_mod = 2 ^ 64

abbrev pub uint_mod : ℕ
uint_mod = 2 ^ 32

abbrev pub add_size : ℕ → ℕ → ℕ
add_size a b = (a + b) % size_mod

-- `-` on ℕ stops at 0, so the modulus is added first; the arguments are below it.
abbrev pub sub_size : ℕ → ℕ → ℕ
sub_size a b = (a + size_mod - b) % size_mod

abbrev pub mul_size : ℕ → ℕ → ℕ
mul_size a b = (a * b) % size_mod

abbrev pub mul_uint : ℕ → ℕ → ℕ
mul_uint a b = (a * b) % uint_mod

abbrev pub add_uint : ℕ → ℕ → ℕ
add_uint a b = (a + b) % uint_mod

abbrev pub sub_uint : ℕ → ℕ → ℕ
sub_uint a b = (a + uint_mod - b) % uint_mod

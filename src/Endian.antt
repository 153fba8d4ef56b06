-- ===== src/Endian.antt =====
-- The object representation of unsigned integers (pqnet/core/endian.cpp, and what `memcpy` and
-- `reinterpret_cast<const char*>` see of an integer). An integer is its bit pattern; the byte order
-- of the host is a parameter.
pub mod Laws
pub use Laws.*
mod Defs
pub use Defs.{ByteOrder, little, big}
unfoldable pub use Defs.{
  le_bytes, of_le_bytes, object_bytes, of_bytes, endian, l_endian, b_endian, u_endian, swap_on,
  h2n16, h2n32, n2h16, n2h32,
}

-- ===== src/Base/Numeral.antt =====
-- Python's `hex(n)` and `str(n)`, and `int(text, base)` for texts of ASCII characters.
mod Reading
mod RoundTrip
unfoldable pub use Reading.{codes, hex, decimal, int_of}
pub use RoundTrip.{int_of-hex, int_of-decimal}

-- ===== src/Base/Text.antt =====
-- A JavaScript string is its sequence of UTF-16 code units; a literal of the source is ASCII, so
-- its code points are its code units.
mod Order
mod Decimal
mod Split
unfoldable pub use Order.*
unfoldable pub use Decimal.*
unfoldable pub use Split.*

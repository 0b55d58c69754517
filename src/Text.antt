-- ===== src/Text.antt =====
-- Go strings and the parts of the packages strings and unicode/utf8 that the sources use.
mod Defs
mod Utf8
mod Laws
unfoldable pub use Defs.*
unfoldable pub use Utf8.{utf8_valid, only_space}
pub use Laws.*

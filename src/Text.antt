-- ===== src/Text.antt =====
-- Go's strings and the functions of package strings that app/*.go calls. A text is the list of its
-- code points (a string that is not valid UTF-8 is outside the model); `byte_length` is `len`.
mod Equality
mod Search
mod Split
mod Trim
mod Case
mod Digits
mod Fields
unfoldable pub use Equality.*
unfoldable pub use Search.*
unfoldable pub use Split.*
unfoldable pub use Trim.*
unfoldable pub use Case.*
unfoldable pub use Digits.*
unfoldable pub use Fields.*

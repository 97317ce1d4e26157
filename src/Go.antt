-- ===== src/Go.antt =====
-- Go's results and slices, as the packages use them.
mod Result
mod Slice
mod Loops
unfoldable pub use Result.*
unfoldable pub use Slice.*
unfoldable pub use Loops.*

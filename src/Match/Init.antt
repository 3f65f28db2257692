-- ===== src/Match/Init.antt =====
-- The constructors of the matches, of1x_match.c.
mod Link
mod Network
mod Transport
unfoldable pub use Link.*
unfoldable pub use Network.*
unfoldable pub use Transport.*

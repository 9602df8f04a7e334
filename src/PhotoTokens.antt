-- ===== src/PhotoTokens.antt =====
-- app/api/photo_tokens.py: links to photos that carry a signed token. JSON, base64, the hashes and
-- Python's conversions are parameters, and so is Redis.
mod Strings
mod Payloads
mod Tokens
pub mod Decoded
pub mod RoundTrip
pub mod Checked
pub mod OneTime
mod Samples
mod Keys
mod Scenarios
unfoldable pub use Strings.*
unfoldable pub use Payloads.*
unfoldable pub use Tokens.*

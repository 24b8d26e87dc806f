-- ===== src/Parse.antt =====
-- internal/api/parse_strict.go: the strict parser of the /fraud-score payload.
pub mod Cursor
pub mod Number
pub mod Time
pub mod Payload
pub mod Grammar
pub mod Position
pub mod Values
pub mod Refinement
pub mod Document
pub mod Tokens
pub mod Stamps
pub mod Numerals
pub mod Exactness
pub mod Fields
pub mod Accepted
pub mod RoundTrip
mod Tests

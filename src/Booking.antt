-- ===== src/Booking.antt =====
-- services/booking-service: appointments. The children model the rows and statements of
-- internal/storage, the handlers of internal/handlers/booking.go, and prove what they keep.
pub mod Model
pub mod Store
pub mod Request
pub mod Create
pub mod Stored
pub mod Locked
pub mod Checked
pub mod Announced
pub mod Atomic
pub mod Overlap
pub mod Limit
pub mod Succeeds
pub mod Cancel
pub mod Cancelled
pub mod CancelRow
pub mod CancelDone
pub mod Offer
pub mod Offered
pub mod Listing
mod OfferTests
mod Tests
mod CancelTests

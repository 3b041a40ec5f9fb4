-- ===== src/Pi.antt =====
-- src/sprinter/pi_gateway.py: a prompt over the RPC of the Pi process, the probe and the review.
pub mod Rpc
pub mod Reviews
pub mod Failures
pub mod Reviewed
pub mod Transcript

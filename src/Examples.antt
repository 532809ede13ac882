-- ===== src/Examples.antt =====
-- The operations at concrete inputs.
mod Toy
mod ToyLinks
mod Invitation
mod Profile
mod Pad
mod Frames
mod Talk
mod Receipt
mod Transcript
mod Policies
mod Groups
mod Wipes

-- ===== src/RegImage.antt =====
-- HMI/src/RegImage.cpp: the image of the regulator that the widgets of the HMI use.
pub mod Buttons
pub mod Pending
pub mod Tables
pub mod Presses
pub mod Replies
pub mod Requests
pub mod Phases
pub mod Image
pub mod Refresh
pub mod Info
pub mod Setup
pub mod Places
pub mod Live
pub mod Inits
pub mod Alive

-- ===== src/Widgets.antt =====
-- Widgets of the HMI under HMI/src: what they decide, without the drawing.
pub mod PidTable
pub mod SentPid
pub mod Panel
pub mod Enabled
pub mod Position
pub mod Speeds

-- ===== src/Voice.antt =====
-- The native voice path (addon/extensions/task_force_radio_pipe/src/Voice).
pub mod Device
pub mod Dsp
pub mod Source
pub mod Mixer
pub mod Session
pub mod Network
pub mod Capture
pub mod Transmit
pub mod Workers

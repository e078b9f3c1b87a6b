-- ===== src/Capture.antt =====
-- tools/ml/capture_real.py, capture_rtl.py, capture_noise.py: capture of labelled signals with a receiver.
pub mod Targets
pub mod Session
pub mod Windows
pub mod Loop
pub mod Rtl
pub mod Noise

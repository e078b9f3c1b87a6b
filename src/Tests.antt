-- ===== src/Tests.antt =====
-- Runs of the model at concrete inputs, one module for each part.
mod Extracting
mod Loading
mod Signals
mod Classifying
mod Mapping
mod Radioml
mod Reporting
mod Evaluating
mod Capturing
mod Noise
mod Merging
mod Averaging
mod Rtl
mod Splitting
mod Augmenting
mod Generating
mod Verifying

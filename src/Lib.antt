-- ===== src/Lib.antt =====
-- The verification of the rule-based analysis pipeline of AnalysisApp (OpenRFStack), in Python: from
-- an array of IQ samples to a modulation and ranked protocol hypotheses, and the harness that measures
-- it against data sets with known labels.
--
-- The parts, and the files that model them:
-- * Features (tools/test_harness/features.py): the record of features, and in Features.Extract the
--   function `extract` of FeatureExtractor, part by part as the source numbers them; Features.Detectors
--   has the symbol rate, hopping, chirp and burst detectors, Features.Ofdm the search for a cyclic
--   prefix, Features.Arrays the slices and indices.
-- * Classifier (tools/test_harness/classifier.py): ModulationClassifier, its thresholds and each return
--   of `classify`.
-- * Protocol (tools/test_harness/classifier.py): the signatures of _build_protocol_db in Protocol.Db,
--   `_score` in Protocol.Score, `map` and `_reasoning` in Protocol.Mapper.
-- * Harness (tools/test_harness/harness.py): the label tables, `classify_sample`, which calls the
--   extractor, the classifier and, for a classified signal, the mapper, and `run_batch`, which catches
--   what a sample raises and keeps it as a row; Harness.Stress the two stress tests, and Harness.Runs
--   the data sets that `main` loads and the table that it puts together.
-- * Datasets (tools/test_harness/datasets.py): `normalise`, the two RadioML loaders,
--   `load_raw_iq`, `load_sigmf`, `load_hf_dataset`, `load_numpy_npz` and `save_synthetic_npz`,
--   on the contents of the files; Datasets.Generators the generators of synthetic signals,
--   Datasets.Synthetic the synthetic data set.
-- * Profiles and Impairments (tools/test_harness/impairments.py): the profiles of the receivers, and the
--   stages of `add_impairments`.
-- * FamilyMap (tools/ml/family_map.py): the families of the classes, and their indices.
-- * Evaluation (tools/ml/eval_hierarchical_chain.py, eval_holdout.py, ensemble_eval.py, evaluate.py,
--   eval_class_snr.py): inference in batches; Evaluation.Masks the masks, positions and means,
--   Evaluation.Labels the labels of a holdout set as labels of the model, Evaluation.Chain the loading
--   of the specialists and hard routing, Evaluation.Soft soft routing, Evaluation.Gated the
--   family-gated argmax, Evaluation.Report the two reports, which put these together;
--   Evaluation.Split the split and the report of evaluate.py, Evaluation.Averaged the sums of
--   probabilities over rotated passes and over sessions.
-- * Capture (tools/ml/capture_real.py): Capture.Targets the table of signals, Capture.Session
--   the calls of `rpc` and the messages of the AMQP thread as a sequence of interleaved steps,
--   Capture.Windows the packets and the windows of a capture, Capture.Loop the loop over the
--   targets. Capture.Rtl (tools/ml/capture_rtl.py) is the capture with rtl_sdr:
--   Capture.Rtl.Targets its table. Capture.Noise (tools/ml/capture_noise.py) is the capture of
--   windows of noise.
-- * Realworld (tools/test_harness/verify_realworld.py): Realworld.Signals the generated signals, and
--   Realworld the runs of the pipeline on them behind the impairments of a profile, or of an SNR.
-- * PrepReal (tools/ml/prep_real_v8.py): the merge of the real captures.
-- * Augment (tools/ml/augment.py): copies of a data set behind the impairments.
--
-- Floats are the interface Float: a numeral is `lit m e` for m / 10^e, and the laws of order and
-- of arithmetic that a theorem needs are its hypotheses (IsOrdered, IsArithmetic). Float.Fixed
-- has a concrete instance on which the examples run. The functions of numpy and scipy are the
-- interface Numpy, with their documented shapes in IsShaped; np.polyfit returns a Result, since it
-- can raise. Arrays are lists, and conversions between widths are left out, but those of
-- save_synthetic_npz and load_numpy_npz to 32 bits, which are an argument. A call that may raise an exception returns a Result with the
-- exception's text. The clock and the generator of random numbers are parameters. Every loop is
-- a recursion on a list or on a number that the source's own `range` gives, but the while loops
-- of the two OFDM generators, which have a turn as fuel for each whole symbol of the length and
-- one more: that these reach the length is shown in Realworld.Lengths and
-- Datasets.Generators.Lengths. A session of onnxruntime is an argument, and that it scores each
-- sample by itself is a hypothesis. Text is compared as Python does; `upper` is that of ASCII
-- text, which the labels are.
--
-- Not modelled: the C++ service, whose pipeline the Python code mirrors; networks and training;
-- the signal generators of tools/ml; the printed reports; downloads. Of the harness, the printed
-- analysis and its recommendations, which are an argument that may raise; of the mapper, the
-- OverflowError of the square in `_score` above about 1e150: `pow` is total; of the evaluation, the report of ensemble_eval.py; of the
-- captures, the text of a request and the measurement of the receiver's impairments.
pub mod Prelude
pub mod Float
pub mod Numpy
pub mod Features
pub mod Datasets
pub mod Classifier
pub mod Protocol
pub mod Harness
pub mod FamilyMap
pub mod Profiles
pub mod Impairments
mod Tests
pub mod Evaluation
pub mod Capture
pub mod Realworld
pub mod Augment
pub mod PrepReal

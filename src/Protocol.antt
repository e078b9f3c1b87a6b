-- ===== src/Protocol.antt =====
-- tools/test_harness/classifier.py: the protocol database and `ProtocolMapper`.
pub mod Signature
pub mod Db
pub mod Score
pub mod Mapper

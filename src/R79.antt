-- ===== src/R79.antt =====
-- verification/r79-tcps-ready-set/verify.py: the court over the R79 consumer subject. `SUBJECT` and
-- `CASES` are arguments; a case is read as the record that the script takes from it.
pub mod Classify
mod Examples

-- ===== src/R54.antt =====
-- qualification/epistemic_consumer_r54/verify.py: the court over the R54 consumer subject.
-- `SUBJECT` and the case files are arguments. A case file is read as the record that `case[...]`
-- and `case.get(...)` take from it.
pub mod Classify
pub mod Court
mod Examples

-- ===== src/StageEvidence.antt =====
-- scripts/ci/write-stage6r*-evidence.py: one writer for each stage, which reads the log of a test run
-- and records whether the stage's gate accepts it. The writers are copies of each other with other
-- suites and texts: the shared modules have what they do alike, and Stage6r4c to Stage6r11 each
-- writer's own suites, texts and choices.
pub mod Patterns
pub mod Suites
pub mod Gate
pub mod Report
pub mod Stage6r4c
pub mod Stage6r5
pub mod Stage6r6
pub mod Stage6r7
pub mod Stage6r8
pub mod Stage6r9
pub mod Stage6r10
pub mod Stage6r11
pub mod Consistent
pub mod Lookup
pub mod Counts
pub mod LastReport
pub mod GreenRun
pub mod Accepted
pub mod Verdict
pub mod Exit
pub mod Absent
pub mod Replay

-- ===== src/Python.antt =====
-- What the controller uses of Python: numbers, parsed JSON documents, `==`, `str`, `json.dumps`,
-- exceptions, and the services of its run-time library that enter as a parameter.
pub mod Numbers
pub mod Json
pub mod Result
pub mod Platform
pub mod Canonical
pub mod Lines
pub mod Matching
pub mod Pretty

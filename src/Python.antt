-- ===== src/Python.antt =====
-- The parts of Python that the binding leans on: integers, JSON values, texts and exceptions.
pub mod Int
pub mod Json
pub mod Text
pub mod Errors
pub mod Convert
pub mod Interpreter

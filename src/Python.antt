-- ===== src/Python.antt =====
-- What the repository uses of Python itself: text methods, `int()`, the regular expression of the
-- coordinates, JSON values, and what is left to the runtime.
pub mod Text
pub mod Value
pub mod Runtime
pub mod Number
pub mod Coord

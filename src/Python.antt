-- ===== src/Python.antt =====
-- What the program uses of Python's own library, modelled once.
pub mod Sorting
pub mod Decimal

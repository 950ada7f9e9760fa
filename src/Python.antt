-- ===== src/Python.antt =====
-- What the program uses of Python and of its standard library, where its meaning matters here.
pub mod TrueDivision
pub mod Sets
pub mod Sorted
pub mod Text
pub mod Hex
pub mod Paths
pub mod Equality
pub mod Names
pub mod Decimal
pub mod Dict

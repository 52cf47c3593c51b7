-- ===== src/Python.antt =====
-- The Python that the program is written in: values, exceptions, `dict` and `str` methods.
pub mod Value
pub mod Result
pub mod Text
pub mod Object
pub mod Double
pub mod Library
pub mod Equality
pub mod Number
pub mod Laws
pub mod Shlex
pub mod FloatText
pub mod Compare
pub mod Signed
pub mod Digits

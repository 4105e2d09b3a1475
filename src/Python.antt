-- ===== src/Python.antt =====
-- What the program uses of the Python runtime: text, `decimal`, `datetime`, values of any type.
pub mod Text
pub mod Decimal
pub mod Datetime
pub mod Value
pub mod Print
pub mod Isoformat
pub mod Call

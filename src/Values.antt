-- ===== src/Values.antt =====
-- src/value_codec.cpp: the wire forms of Oracle's values, a child for each kind of value.
pub mod Date
pub mod DateRound
pub mod TimestampRound
pub mod Calendar
pub mod Rowid
pub mod Binary
pub mod Integer
pub mod IntegerExact
pub mod Number
pub mod NumberText
pub mod NumberAccepted
pub mod NumberEncoded
pub mod BinaryRound
pub mod Interval
pub mod IntervalRound
mod Tests
mod NumberTests

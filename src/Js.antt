-- ===== src/Js.antt =====
-- The JavaScript runtime, as far as the program uses it.
pub mod Number
pub mod Text
pub mod Sort
pub mod Int

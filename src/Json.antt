-- ===== src/Json.antt =====
-- src/common/json.cpp: the Json value, its parser and its printer. A number is a double, which
-- std::from_chars reads and operator<< writes: the type and the two functions are parameters.
pub mod Text
pub mod Value
pub mod Parse
pub mod Dump

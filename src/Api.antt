-- ===== src/Api.antt =====
-- Calls by name, with the arguments that a script passes: the parsing of parameters in each function,
-- the methods of both classes and the static functions of classes/Types.cpp.
pub mod Arguments
pub mod Live
pub mod Static
pub mod Methods
pub mod ArgInfo
pub mod Script

-- ===== src/Util.antt =====
-- internal/util: helpers over names, strings and dependency graphs that the controllers share.
pub mod Strings
pub mod Dag
pub mod Names

-- ===== src/Sql.antt =====
-- src/sql.rs: the writer lanes, the statement header, the statement check and the routing.
pub mod Lane
pub mod Tokens
pub mod Target
pub mod Statement
pub mod LogRate
pub mod Classify
pub mod Plain
pub mod Ends
pub mod Commented

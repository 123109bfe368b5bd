-- ===== src/Crm.antt =====
-- The customers over JDBC, in the package org.springsource.examples.crm.
mod Exceptions
mod Driver
mod Raw
mod Pool
mod Keeps
mod Statements
mod Opening
mod Nested
mod Balance
mod Ends
mod Errors
mod Transactions
mod Triples
mod Settling
mod Commits
mod Tests

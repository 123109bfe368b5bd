-- ===== src/Counter.antt =====
-- The counter, kept in Redis or in MySQL, of the package com.joshlong.examples.data.counter.
mod Decimal
mod Stores
mod Readback
mod Tally
mod Redis
mod Statements
mod Mysql
mod Races
mod Exercise
mod Tests

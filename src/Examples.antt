-- ===== src/Examples.antt =====
-- Concrete inputs on which the theorems and the definitions are run.
mod Data
mod Fields
mod Threads
mod Reading
mod Parsing
mod Session

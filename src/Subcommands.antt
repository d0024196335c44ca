-- ===== src/Subcommands.antt =====
-- src/cmd/gcli.c: the table of subcommands, their aliases, and how an abbreviated name is looked up.
pub mod Lookup
pub mod Sorted
pub mod Aliases
mod Tests

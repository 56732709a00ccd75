-- ===== src/Store.antt =====
-- The database that the services write (prisma/schema.prisma), with the columns that the modelled
-- code reads or writes. A table is the list of its rows in the order of their creation, so that
-- `orderBy: createdAt asc` is the order of the list. Ids and times are numbers, and `next_id` is
-- the supply that stands for platform/uuidv7.ts and the database's defaults. Joined rows that only
-- one parent owns (a line's modifier prices, a credit note's lines) stand inside the parent.
pub mod Rows
pub mod Transaction
pub mod Samples

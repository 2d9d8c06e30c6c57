-- ===== src/Layout.antt =====
-- Where nodes stand on disk: include/ssd_index.h. A location numbers the slots of the file; a
-- sector holds a fixed number of slots; a page layout says which id stands in each slot.
pub mod Sector
mod Tests
pub mod Slots
pub mod Alloc

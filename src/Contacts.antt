-- ===== src/Contacts.antt =====
-- The telephone books of structs/task.c (a fixed array) and dynamic/task.c (an array that grows):
-- what both files declare alike, and the parts of their functions that agree.
pub mod Fixed
pub mod Dynamic
pub mod Spec
pub mod Common
pub mod Contents
pub mod Agree
mod Tests

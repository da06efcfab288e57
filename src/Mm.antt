-- ===== src/Mm.antt =====
-- Memory management of the x86 port: arch/x86/mm.
pub mod Phys
pub mod Pool
pub mod Map
pub mod Space
pub mod User
pub mod Fork
pub mod Tests

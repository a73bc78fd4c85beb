-- ===== src/Mm.antt =====
-- The memory managers of kernel/src/mm.
pub mod Page
pub mod Pmm
pub mod PfnDb
pub mod Vmm

-- ===== src/Mm.antt =====
-- Physical memory: the page allocators of lab2 and lab8.
pub mod FreeArea
pub mod Place
pub mod BestFit
pub mod FirstFit

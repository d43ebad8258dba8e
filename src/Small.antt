-- ===== src/Small.antt =====
-- Short programs: cmake-tutorial/src/factorial.c, profiling/src/main.c and multithread/src/multithread.c.
pub mod Factorial
pub mod Fill
pub mod Yes
mod Tests

-- ===== src/Tests.antt =====
-- Runs of the model, and each theorem at an input.
mod Uart
mod Utils
mod Cpio
mod Exec
mod Sbi
mod Sched
mod Boot
mod Paging
mod Buddy
mod Vfs
mod Fdt
mod Tree
mod Video
mod Config
mod Trap

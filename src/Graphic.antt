-- ===== src/Graphic.antt =====
-- The graphic driver of soft/graphic, a program for the processor: the command queues between the threads
-- that draw and the driver.
pub mod Queue
pub mod Pixels
pub mod Screen

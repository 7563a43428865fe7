-- ===== src/Tests.antt =====
-- Concrete inputs for the theorems, and their applications.
mod Earlier
mod Booting
mod Life
mod Programs
mod Forking
mod State
mod Lists
mod Scheduling
mod Turns
mod Semaphores
mod Creation
mod Memory
mod Devices

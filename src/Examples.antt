-- ===== src/Examples.antt =====
-- The theorems of the other modules, each applied to concrete inputs.
mod Lists
mod Linked
mod Memory
mod Printing
mod Boot
mod Devices
mod Sorting

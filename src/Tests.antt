-- ===== src/Tests.antt =====
-- The theorems at concrete inputs, and the numbers, stores and tables that they are tried on.
mod Numbers
mod Stores
mod Tables
mod Services
mod Handles
mod Lists
mod Pools
mod Ciphers
mod Endpoints
mod Endings

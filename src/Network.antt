-- ===== src/Network.antt =====
-- IP addresses and ranges, and the addresses that callbacks may go to:
-- backend/packages/api/src/ip-cidr.ts and callback-ssrf-guard.ts.
pub mod Address
pub mod Cidr
pub mod Callback
mod Tests

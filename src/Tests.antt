-- ===== src/Tests.antt =====
-- The theorems at concrete inputs.
mod Sample
mod RoutesTests
mod StateTests
mod RulesetTests
mod ReconnectTests
mod RecoveryTests
mod TxnTests
mod WgconfTests
mod AuthTests
mod SignatureTests
mod SetupTests

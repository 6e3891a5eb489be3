-- ===== src/Routes.antt =====
-- routes.py: the matchers, what they match, and the lint for rules that can never match.
pub mod Domain
pub mod Match
pub mod Trie
pub mod Index
pub mod Shadow

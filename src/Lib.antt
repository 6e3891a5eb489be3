-- ===== src/Lib.antt =====
-- A verification library for anyhop, which runs WireGuard channels through one sing-box process and
-- routes traffic over them by an ordered table of rules.
--
-- The parts of the program and the files that model them (paths from the repository's root):
-- * src/anyhop/routes.py, the matcher and the lint of the rule table: Routes and its children. A
--   rule is the record of Rule, an address or network that of Network. `match_destination`,
--   `covers`, `_Labels`, `_CoverIndex` and `shadowed_by` keep their names.
--   Routes/Shadow/Reference has the comparison of all pairs that the index stands for.
-- * src/anyhop/state.py, the store behind `state.json`: State has the data, the errors and the
--   reads; State/Ports the claims and the allocation of ports; State/Ids the ids of channels;
--   State/Channels and State/Edits the operations on providers and channels; State/Rulesets the
--   reading of rules as blocks; State/RuleEdits and State/Reorder the operations on rules;
--   State/Recovery the moves of ports that another process holds; State/Setup the merge of a
--   bundle and State/Restore the replacement of all by one; State/Refresh new tunnel parameters;
--   State/Signature the digest of what the engine is configured by. An operation is the body of
--   its transaction: a function from the locked data to a result, which is an error (then the
--   file stays as it is) or the data that is written. State/Guard says when rule targets are
--   live, and State/Targets has the proofs about them.
-- * src/anyhop/reconnect.py, the recovery of channels whose probes fail: Reconnect has the
--   machine of one channel and the budget of restarts, Reconnect/Pass the pass. A pass reads a
--   snapshot of the channels, claims its attempts in the store by `prepare_reconnects`, and ends
--   each with `finish_reconnect_attempt`; the data may have changed between. Reconnect/Attempts,
--   Reconnect/Budget and Reconnect/Frame have the proofs. The clock has the ticks of a float, 2
--   ** 22 in a second, and what is stored is cut to whole seconds as `int` does.
-- * src/anyhop/txn.py, the compound changes of credentials and state: Txn has the disks that a
--   change passes through, one for each write that replaces or removes a file, those of a
--   recovery included. A crash leaves one of them. What a block does is a list of actions; an
--   exception ends the list where it is raised. Txn/Atomic, Txn/Ended and Txn/Recovery have the
--   proofs.
-- * src/anyhop/wgconf.py, the parser of WireGuard configurations: Wgconf has `_sections`, whose
--   loop is a fold of `scan_line` over the lines, Wgconf/Fields the checks and `parse`, and
--   Wgconf/Canonical `canonical`. A problem is a value with its line; the code joins their
--   messages. Wgconf/Sections, Wgconf/Fields/Valid and Wgconf/Canonical/RoundTrip have the
--   proofs.
-- * src/anyhop/api/auth.py, the login tokens and the session cookies, with what
--   src/anyhop/api/server.py does to sign a user in and to let a cookie in: Auth has the
--   operations, with the file of spent tokens as a value and the failures of its reads, moves and
--   writes as flags, and Auth/Once and Auth/Sessions the proofs. A cookie is the two times and
--   the signature that `_parse_session` reads of it.
--
-- Prelude has the shared tests, lists, dicts, decimal numbers and methods of texts, Result the
-- results and errors. Texts are lists of code points, numbers are natural, and dicts are lists of
-- pairs in the order of insertion; Prelude/Sorting has `sorted` of the items of a dict. A state
-- is one value, since each transaction holds the file lock.
--
-- Parameters stand for code outside the repository: the parsers of `ipaddress`, base64, Python's
-- `str.lower` and, in the store, `str.strip`, pycountry behind `country_code`, SHA-256 behind
-- fingerprints, revisions and the signature of a configuration, HMAC, base64 and `int` in login
-- tokens, random nonces, what the host says of ports, and the answers of providers. Geo sets are
-- an argument too.
--
-- Bounds: the scan from a port base has `65536 - base` rounds, all the ports there are; the
-- ephemeral search has the hundred attempts of the code; the numbering of ids has one more round
-- than ids are taken; a decimal number `n` is written in at most `n + 1` rounds.
--
-- Not modelled: reading, writing and quarantine of the other files, process and service control,
-- network requests, log messages, the command line, and the rest of the API server, which are
-- effects around the parts above; the rule-set files, the tracer, the rendering of the sing-box
-- configuration, and `sync_setup` and the settings of geodata and backups in the store.
pub mod Prelude
pub mod Network
pub mod Rule
pub mod Routes
pub mod Tests
pub mod Result
pub mod State
pub mod Reconnect
pub mod Txn
pub mod Wgconf
pub mod Auth

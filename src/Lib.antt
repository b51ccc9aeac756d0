-- ===== src/Lib.antt =====
-- Eidetica, a database of Merkle DAGs whose entries carry CRDT documents, and whose writes are
-- authorised by keys kept in the database's own settings. The development models the document layer,
-- the authentication layer, the storage of entries, and the transactions with the stores on them of
-- crates/lib/src/.
--
-- How the parts interact. A document (`Doc`) maps keys to values, nested documents and lists; it is
-- read and written by dotted paths and merged with the documents of other entries. The settings of a
-- database are such a document: `AuthSettings` stores keys under `keys.<public key>`, the wildcard
-- grant under `global`, and references to delegated trees under `delegations.<root>`. An entry names
-- its signer by a key hint, directly or through a path of delegated trees; the resolvers turn the
-- hint into candidates (a key, a permission, a status), clamp delegated ones to the declared bounds,
-- and `validate_entry` accepts the entry if a candidate made the signature and may do the write. The
-- in-memory backend stores entries and keeps, per tree and subtree, the tips of the DAG; the reads
-- and the merge base walk from tips to parents. An entry is built by an `EntryBuilder`, which sorts
-- what it was given and validates the result, with a height above its parents'. A transaction holds
-- such a builder: the stores (`DocStore`, `Table`, `Registry`) write their documents into it, and read
-- them from it and from the state of the store at the builder's parents, which the transaction merges
-- from the entries below the parents and keeps, sealed, in the cache of states. Requests to join a
-- tree are rows of a table.
--
-- Files:
--   * Base: lists, results (`Outcome` is `Result`), integers, the order of texts, `parse::<usize>`.
--   * Crdt/Position, Crdt/Key, Crdt/Value: the data of list.rs, value.rs and mod.rs of
--     crates/lib/src/crdt/doc/. A `HashMap` or `BTreeMap` is the list of its entries in the order of
--     their keys.
--   * Crdt/Container: reading a container, and reading after a write or a merge.
--   * Crdt/Merge: `Value::merge`, `Doc::merge`, `List::merge`; below it the laws of merging.
--   * Crdt/Path: crates/lib/src/crdt/doc/path.rs.
--   * Crdt/Doc: `get`, `set`, `remove` of crates/lib/src/crdt/doc/mod.rs.
--   * Crdt/Items: the operations by index of crates/lib/src/crdt/doc/list.rs.
--   * Entry: crates/lib/src/entry/mod.rs; Entry/Validate its `validate`, Entry/Builder the
--     `EntryBuilder` of builder.rs beside it, Entry/Order the order of ids.
--   * Height: crates/lib/src/height.rs and the clock for tests of clock.rs.
--   * Auth/Permission, Auth/Bounds: crates/lib/src/auth/types/permissions.rs and
--     crates/lib/src/auth/permission.rs.
--   * Auth/Key, Auth/Error: crates/lib/src/auth/types/keys.rs and crates/lib/src/auth/errors.rs.
--   * Auth/Codec, Auth/Reference: the `From` and `TryFrom<&Doc>` of crates/lib/src/auth/types/.
--   * Auth/Settings: crates/lib/src/auth/settings.rs; its child Resolve has the key hints and the
--     choice of an access.
--   * Auth/Delegation, Auth/Access, Auth/Validate: delegation.rs, permissions.rs with resolver.rs,
--     and entry.rs of crates/lib/src/auth/validation/.
--   * Backend/Storage: storage.rs of crates/lib/src/backend/database/in_memory/ with the data of its
--     mod.rs; Backend/Assoc is `HashMap`. The tips of a tree are the stored entries that no entry of
--     the tree names as a parent. Its child Read has the reads of whole trees and up to tips.
--   * Backend/Walk: the loop over a queue of ids that the reads and the traversals share.
--   * Backend/Traversal: traversal.rs beside it; MergeBase has the common part of all ways up from
--     some entries, Paths the ways as lists of ids, Snapshot the tips of trees and stores, cached or
--     computed.
--   * Backend/Reachable: `check_targets_reachable_from` of crates/lib/src/backend/mod.rs, which
--     decides whether claimed tips reach the declared ones of a delegated tree.
--   * Backend/Cache: `InMemoryCrdtCache` of cache.rs beside it; Items has its lists of items, Bytes the
--     bytes that it counts, Kept what it answers with after a call.
--   * Transaction: crates/lib/src/transaction/mod.rs over the in-memory backend; a step is a function
--     from the work (the transaction, the entries and the cache) to an outcome and the work after it.
--     Its child State has the merging of the state at some tips, State/Plain that state without a
--     cache, State/Cached what the cache holds, State/InMemory the in-memory backend's cache behind
--     it; Ends, with State/Ends, has that the calls end and what of the builder they keep, Staging what
--     is read after an update, Error and Monad the errors and the steps in a row.
--   * Store/Codec: what stores ask of their transaction (crates/lib/src/store/mod.rs);
--     Store/DocStore, Store/Table, Store/Registry: docstore.rs, table.rs and registry.rs beside it.
--   * Store/Open: `get_store` of crates/lib/src/transaction/mod.rs, which chooses by the registry. Its
--     child Ends has that the call ends and what of the builder it keeps, Kept the staged data, Laws the
--     registry's entry.
--   * Sync/Queue, Sync/BootstrapRequests: queue.rs and bootstrap_request_manager.rs of
--     crates/lib/src/sync/. Sync/SettingsMerge: crates/lib/src/instance/settings_merge.rs.
--   * Tests modules: the theorems at concrete values.
--
-- Bounds and parameters. Numbers are unbounded naturals; where the code has a u32, u64 or usize, a
-- definition writes the wrap-around or the limit out (`to_u32`, `parse_usize`), and a theorem that
-- needs a priority in u32 says so. A walk through the graph runs on fuel: the length of its queue or
-- stack and the number of parents of the stored entries, since each turn takes an id away and each
-- entry adds its parents once; the eviction loop of the cache has the number of its items, and the
-- path of first parents one turn more than there are entries. `None` is a loop that did not end, and
-- the theorems show that it does not come about. Parameters: `decodes` (a text is the Base64 of an
-- Ed25519 key, by the crates base64ct and ed25519_dalek), `parse_cid` (the crate cid), `verify` (a
-- signature check), `id_of` (the CID of an entry's bytes), `IdOrder` (the order of ids, by the crate
-- cid), `Lru` (the crate lru), the record `Trees` of what delegation asks of other databases,
-- `from_bytes` (the CID of a text), `Encryptor` (the trait of that name), `StateCache` (the cache as a
-- transaction uses it: what it answers was put there), and the JSON of the crate serde_json: `Crdt`,
-- `DocJson`, `RowJson` and `StrategyJson` say that it reads back what it wrote. The key of a new row,
-- by the crate uuid, is an argument.
--
-- Not modelled: files and the SQL backend; the commit of a transaction, which needs the signing keys,
-- the settings of the database as of a verified frontier and its callbacks; the settings store and
-- the store of encrypted documents; peers, tickets and transports; users and the service; the caches
-- of the validator, which nothing reads; log messages and the words of errors. A lock that a thread
-- holds is a step that is not interrupted.
pub mod Base
pub mod Crdt
pub mod Entry
pub mod Height
pub mod Auth
pub mod Backend
pub mod Transaction
pub mod Store
pub mod Sync

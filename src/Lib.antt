-- ===== src/Lib.antt =====
-- The operational transform layer of Bayou, with what it stands on.
--
-- Bayou keeps a file as a sequence of changes. A change has a revision number and a delta, which is a
-- list of operations, and a snapshot has a revision number and the delta that is its contents. A
-- delta is a document when it could be a snapshot's contents. `BaseDelta`, `BaseChange` and
-- `BaseSnapshot` are the framework, and a kind of content is a subclass of each: the blobs of a
-- file, and the properties and the carets of a document. A local file keeps its changes in memory,
-- writes them to a directory when it is flushed, and composes its snapshots from them. The control of a
-- part of a document keeps the part's changes as blobs at paths of the file, with the current revision and
-- a stored snapshot, and merges an update with the changes since its base. Events are served by state
-- machines, whose queue and states are watched over promises.
--
-- Files, and the code that each is about (below local-modules/@bayou/):
--   Prelude, JsMap: the shared notation, results and errors, and JavaScript's `Map`.
--   Syntax, Typecheck: `checkIdentifier()` and `checkInt()` of util-core/CoreTypecheck.js,
--     typecheck/TInt.js.
--   Ot.Delta, Ot.Change, Ot.Snapshot: ot-common/BaseDelta.js, BaseChange.js and BaseSnapshot.js. What a
--     subclass overrides is a record of functions, `DeltaClass`, and what the framework relies on is
--     the record of laws `IsDeltaClass`, which each kind of content fills.
--   Ot.Timestamp, Ot.RevisionNumber: ot-common/Timestamp.js and RevisionNumber.js.
--   Doc.Property: doc-common/Property.js, PropertyOp.js, PropertyDelta.js and PropertySnapshot.js.
--   Doc.Caret: doc-common/Caret.js, CaretId.js, CaretOp.js, CaretDelta.js and CaretSnapshot.js.
--   FileStore: file-store-ot/StoragePath.js, StorageId.js, FileOp.js, FileDelta.js and FileSnapshot.js;
--     and file-store/BaseFile.js, whose subclass is a record of functions, `FileImpl`.
--   FileStoreLocal: file-store-local/LocalFile.js, which fills `FileImpl`: what it keeps in memory
--     (LocalFile), the names of its files (Names), and its reads and writes of them (Storage).
--   DocServer.Part: doc-server/BaseControl.js, a part of a document in its file: its paths, and its
--     reading, appending and storing. The subclass and the codec are the record `Part`, and what a
--     part relies on are the records `IsPart` and, for the file, `FileLaws` (FileStore.FileLaws),
--     which local files fill (FileStoreLocal.LocalFile.Contract).
--   DocServer.BaseControl, DocServer.PropertyControl: the composition of changes, the differences and
--     the updates of doc-server/BaseControl.js, over a record of the calls on the file, and the
--     rebasing of PropertyControl.js.
--   DocServer.CaretControl: doc-server/CaretControl.js, its rebasing, the update of a caret and the
--     removal of idle carets.
--   DocServer.SnapshotManager: doc-server/SnapshotManager.js, the cache of a part's snapshots, by which
--     a part reads what it stores behind an append (SnapshotManager.Serving).
--   PromiseUtil: promise-util/Mutex.js and Condition.js.
--   StateMachine: state-machine/StateMachine.js, its table of handlers and its queue.
--   Tests: runs at concrete inputs.
--
-- A method is a function of the same name in the notation here: `_impl_compose()` is `impl_compose`. An
-- exception is a result `err` with the kind of error; its message is left out. A value of a
-- document's property is any type with a decidable equality, which stands for
-- `DataUtil.equalData()`. A blob is any type with such an equality; its hash, which the platform makes, and
-- the test for hashes are parameters. A promise is a number, and what has been resolved is a list of
-- such numbers. Asynchronous code is cut at each `await`, and a step is what runs between two.
--
-- A file and its directory are passed explicitly: a call takes a state and gives the next. A directory
-- is the list of its entries, in the order in which it lists them. The codec is a pair of functions,
-- of which the theorems ask that decoding undoes encoding. Where a control reads a file and then appends
-- to it, the theorem on the append takes what was read and what the file has by then apart.
--
-- Two loops have fuel. That of `composeAll()` in BaseSnapshot.js takes `maxChangesPerIteration` changes
-- to a round: with one change or more to a round, as many rounds as there are changes are enough, and
-- the theorem on it says so; LocalFile.js has that many. That of `getComposedChanges()` in
-- BaseControl.js takes 1000 revisions to a round, and has a round for each revision of its range.
-- Integers are those of ℤ where the sign matters: the checks keep them within the safe integers of
-- JavaScript.
--
-- Not modelled: the codec; the body of a document, which the Quill library composes; the identity of
-- objects, such as a `this` returned in place of an equal value; the syntax of a caret's color, and
-- the choice of one for a new caret; when the check for idle carets runs;
-- timeouts, but for the attempts that one leaves to an update; waiting for a path of a file, and so for a
-- revision; calls on a snapshot manager that overlap; logging; the rest of the server, and the client.
pub mod Prelude
pub mod JsMap
pub mod Syntax
pub mod Typecheck
pub mod Ot
pub mod Doc
pub mod FileStore
pub mod FileStoreLocal
pub mod DocServer
pub mod PromiseUtil
pub mod StateMachine
pub mod Tests

-- ===== src/Lib.antt =====
-- Gitna is a web client for a git repository; its browser half stands under web/src. This library
-- models the parts of it that keep state or decide something, as functions on immutable values.
--
-- - Prelude: the shared names: tests on native numbers, lists, texts (lists of UTF-16 units) and
--   JavaScript's Map and Set as lists in insertion order.
-- - Documents: web/src/diffshub/gitna/documents.ts, the store of the documents that are edited:
--   createUntitled, createBound, updateContent, beginSave, acknowledgeSave and the rest, one
--   function each, on a store with its map and its next untitled number. An error that the source
--   throws is a result.
-- - Graph: web/src/lib/graph-lanes.ts: computeGraphFrom, computeGraph and appendGraph. The lanes
--   are a list of optional ids; the freed columns are a list from which the smallest is taken.
-- - History: the loading of the commit graph in web/src/diffshub/gitna/repository.tsx: readGraph,
--   loadGraphCount, loadMoreGraph. A handler is cut at its `await` into a part that begins a
--   request and parts that settle an answer; `step` takes one event of a world of requests in
--   flight, so that a list of events is an interleaving. It calls Graph.
-- - Tabs: the open files in repository.tsx: canOpenRepositoryFile, selectRepositoryFile, the
--   comparison of two files, closeRepositoryFiles, renameWorktreeEntry. It holds a store of
--   Documents.
-- - Reads: the reads of repository.tsx of which only the newest counts: refreshFolders,
--   readBranches, readStashes, readTags, refreshConflicts.
-- - Actions: the guard of the actions in repository.tsx (getActionDisabledReason), what mutate,
--   operation and runWorktreeOperation do to the session before and after their `await`,
--   reconcileSelection and strongerFileMembershipRefresh.
-- - Git: the part of the session of repository.tsx that clearGitState and invalidateGitLoading
--   reset.
-- - Snapshot: readSnapshot of repository.tsx with its loop, cut at its `await` into a begin and a
--   settle; a running operation is known by its number, and the promise of one that ends is
--   dropped in the same step.
-- - Reconciliation, Connection: connectEvents with its handlers, startReconciliation,
--   performReconciliation, finishReconciliation, scheduleRecovery, retryConnection,
--   refreshCurrentFolder and disposeConnection of repository.tsx, as steps of one state that holds
--   the snapshot. A timer is a field with the time it is due; times are milliseconds, and
--   Math.random is an argument in thousandths.
-- - Directories, DirectoryPages: the directories of the file explorer in repository.tsx:
--   rebuildOrdinaryTreePaths, loadOrdinaryDirectory, loadMoreOrdinaryDirectory and
--   fetchOrdinaryDirectoryPage, with the pages in flight as a list. An abort controller and the
--   promise of its page have one number.
-- - Accumulator: web/src/diffshub/lib/diffsHubDataAccumulator.ts: the items of a diff and the tree
--   of its files as they stream in, and the patch of the tree that each step sends.
-- - FileSearch: searchOrdinaryFiles of repository.tsx, with the searches in flight as a list.
-- - FileTrees: web/src/diffshub/gitna/SourceControlWorkflow.tsx, the helpers that make the trees
--   and lists of files and the words of the question before changes are discarded.
-- - Hunks: web/src/lib/hunk-patches.ts: splitHunkPatches and joinPatch.
-- - ContentSearch: web/src/lib/contentSearchStream.ts: readContentSearchStream on the pieces of a
--   response; JSON.parse and the texts of the decoder are parameters.
-- - Comments: the lists of the comment sidebar: insertCommentInLineOrder.ts,
--   upsertSavedCommentSidebarEntry.ts, removeSavedCommentSidebarEntry.ts and their neighbours.
--
-- The answers of the server are arguments of the functions that settle them. A number is a natural
-- number without a bound: the source only counts up and compares. Fuel has the search for an
-- unused suffix of an item's id, one more than the number of ids that are taken, which is enough
-- because each try that fails uses up another taken id; the search for an unused name in a list of
-- files, one more than the number of names, for the same reason; and the passes that remove
-- orphaned directories, one more than the number of loaded directories, which is enough because
-- each pass but the last removes one.
--
-- Not modelled: what is drawn (the React components and the styles), the calls of fetch and of the
-- event source, the firing of timers, the browser's storage and workers, the server and the
-- scripts. Each module's comment says which functions it is about.
pub mod Prelude
pub mod Accumulator
pub mod Actions
pub mod Comments
pub mod Connection
pub mod ContentSearch
pub mod Directories
pub mod DirectoryPages
pub mod Documents
pub mod FileSearch
pub mod FileTrees
pub mod Git
pub mod Graph
pub mod History
pub mod Hunks
pub mod Reads
pub mod Reconciliation
pub mod Snapshot
pub mod Tabs

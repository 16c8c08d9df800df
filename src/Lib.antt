-- ===== src/Lib.antt =====
-- gofrog: a verification library for the Go utilities of this repository.
--
-- The parts of the program and the files that model them:
--   * lru/lru_base.go, type cacheBase: Lru/Base. The record CacheBase holds the list of elements, each
--     with the address that stands for its *list.Element, and the map from keys to addresses. add, get,
--     update_element, remove, remove_oldest, remove_element, len and clear are the methods; a clock
--     reading is an argument, and the calls of OnEvicted are recorded in order. Lru/Elements and
--     Lru/Invariant tie the map to the list, Lru/Spec says without a map and addresses what the cache
--     does, Lru/Refinement proves it of each method, Lru/Runs of sequences of calls of all seven
--     methods, with a specification that leaves open the order in which Clear reports; Lru/Window is
--     about bounded caches, Lru/Clear and Lru/Deletions about Clear.
--   * lru/lru.go, type Cache: Lru/Cache. Each method by itself takes the mutex by enter, runs the base
--     method, and releases the mutex by leave; the result none means that the call waits for a mutex
--     that is held. call_method chooses the method of a call.
--   * datastructures/set.go: Datastructures/Set, with the keys of the map in Set/Keys, the algebra in
--     Set/Algebra and the sizes in Set/Size. The order in which Go ranges over a map is the parameter
--     MapRange of Prelude/Range, here and in Lru/Clear.
--   * version/version.go: Version; Version/Order compares tokens, Version/Padded whole versions and
--     Version/Suffix is about the number and the suffix of a token.
--   * safeconvert/int.go: Safeconvert and Safeconvert/Exact.
--   * http/retryexecutor/retryexecutor.go: RetryExecutor, with the runs of the loop in
--     RetryExecutor/Attempts and what Execute returns in RetryExecutor/Returns.
--   * parallel/runner.go: Parallel/Runner. The record Runner is the state that callers and threads
--     share, with the point at which each thread, each call of addTask and the body of Cancel stands;
--     the operations are what happens between two points at which others can run, and
--     Parallel/Runner/Steps is the relation of one step and the states that are reached. add_* are the
--     parts of addTask, cancel_* of Cancel, and thread_*, in Parallel/Runner/Threads, of the goroutine of
--     addThread. Counters and Settled
--     say what the counters count, Notification what may happen to the channel of the notification, Bounds,
--     Cancelled, Stuck and Drain what their names say. notify_finished is one step of a call of
--     notifyFinished: its test, its send, its assignment or its close. Threads hold finishedNotifierLock
--     round their call (thread_call, thread_unlock); Cancel and the timers do not (cancel_notify,
--     timer_notify), and their steps fall between those of others. A send that waits looks at the channel
--     that a Reset has put in place by then. The result of a task is any error or none.
--   * unarchive/archive.go: Unarchive, over the record Library of what the archive library recognises,
--     can do and walks over. unarchive, by_extension, inspect_archive (with inspect_entries for the walk
--     and inspect_entry for the function that it calls), check_symlink_entry, get_path_in_archive and the
--     methods of UplinksValidator are the functions of the file; Filepath holds what they use of Go's
--     filepath and strings, on Unix. Unarchive/Recorded is about the entries and links that the validator keeps,
--     Unarchive/Inspected about what is extracted, Unarchive/Admitted
--     about archives that pass, Unarchive/Formats about byExtension. What the library makes of a header is a value of each entry, and the error
--     that a walk returns is the one of the function it called.
--   * log/logger.go: Logger. The record Package is the package's logger and the lines written so far;
--     call is a call of Debug, Info, Warn, Error or Output, method the method behind it, get_logger the
--     once. Logger/Filtered is about sequences of calls.
--   * crypto/aes_encryption.go and crypto/key_generator.go: Crypto/Encryption, over a record Aead for GCM,
--     with Go's hex and base64 in Crypto/Hex and Crypto/Base64; the round trip is in
--     Crypto/Encryption/RoundTrip.
--   * io/multiwriter.go: MultiWriter and MultiWriter/Written. The writers' states stand in a list; the
--     order in which they end is the parameter Completion of Prelude/Range, as in fanout.
--   * crypto/checksum.go: Crypto/Checksum, over a record Hashing of the hashes, and through MultiWriter
--     and the copy of Streams; Checksum/Sums is about maps of hashes, Checksum/Streamed about streams.
--     Crypto/FileDetails has the functions on files.
--   * fanout/reader.go: Fanout/Reader, where a consumer whose pipe gets nothing and stays open has no
--     outcome, and the result none of read means that it waits for ever. fanout/readall_reader.go: Fanout/ReadAll, where a consumer is a
--     machine over the pieces of the stream and a pipe is open or closed; ReadAll/Alone compares the
--     pipes with each consumer alone, ReadAll/Collected is about the collection of the messages.
--   * io/fileutils.go: Files, a module per part. Files/Names splits paths; Files/Listing is about what a
--     path points at and the entries of a directory, over a record FileSystem, with what is listed in
--     Listing/Chosen; Files/Parents is the search in parent directories; Files/Moving is MoveFile, over the
--     errors of its calls; Files/TempDirs is CleanOldDirs and Files/Removing CreateTempDir and
--     RemoveTempDir. Files/Walk is Walk, over the record WalkSystem and a callback with a state: enter adds
--     to the map of links and is_known asks it, walk_names is the loop over the entries and after_entry
--     what the loop does with an error; Walk/Traversed compares it with a traversal of a Files/Tree, and
--     Walk/Halting says that it ends when links are followed. Files/Copying is CopyDir, CopyFile and MoveDir;
--     Copying/Plan lists the calls that a copy of a tree makes, Copying/Planned compares, and Copying/Moved
--     does the same for MoveDir. Files/RandFile has
--     CreateRandFile and CreateRandomLenFile, Files/Lines ReadNLines, over the
--     results of ReadLine, each a line or, with isPrefix, a piece of one, and Files/Transfer DownloadFile,
--     GetFileContentAndInfo and Unmarshal.
--   * io/cmd.go: Commands, with the lines and their patterns, and Commands/Running, with the functions that
--     run a process, over a record Process of its answers; Commands/Traversed is about the lines,
--     Commands/Closed about what RunCmd closes.
--   * http/filestream/filestream.go: Filestream, with the way out over a record Multipart of the message, and
--     Filestream/Reading, with the way in, through MultiWriter; Filestream/Sent and Filestream/Received are
--     about what is sent when a file fails and what the writers get.
--   * stringutils/wildcards.go: Wildcards and Wildcards/Translation, over Strings.
--   * The prelude holds what the parts share: tests on numbers, lists, integers, bytes.
--
-- Numbers: int, uint and their 64-bit kin have 64 bits; the counters of loops and the lengths of lists
-- are natural numbers. The loops recur on lists, or on the rounds that are left. Fuel is a parameter of
-- four: the search in parent directories, for which as many rounds as there are directories are enough; the
-- rounds of CreateRandFile, one more than the blocks of 4096 bytes; CopyDir and MoveDir, one unit for each level
-- of directories, so the height of the tree; and Walk, one unit for each path on the way down, so
-- the height of the tree, or with links followed a bound from the links and the depth of the file system
-- that Walk/Halting gives.
--
-- Not modelled: a callback that calls back into its cache; the formatting of log lines and error
-- texts, which are kept as the data that they show; spaces outside ASCII in versions; a second
-- ReadAll on one reader; consumers that never return; what a command prints with prompt; a file system
-- that others change while Walk or CopyDir reads it.
pub mod Commands
pub mod Crypto
pub mod Datastructures
pub mod Fanout
pub mod Filepath
pub mod Files
pub mod Filestream
pub mod Logger
pub mod Lru
pub mod MultiWriter
pub mod Parallel
pub mod Prelude
pub mod RetryExecutor
pub mod Safeconvert
pub mod Streams
pub mod Strings
pub mod Unarchive
pub mod Version
pub mod Wildcards

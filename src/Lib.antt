-- ===== src/Lib.antt =====
-- A model of the test harness for QEMU: a binary that boots guests in QEMU processes, drives them by
-- QMP and by their serial log, and reports which tests passed; and of the attribute macro that
-- registers the tests.
--
-- The parts, and the code that each models:
--   * Config: src/config.rs, the environment variables and their readers. Options and Options/Net:
--     the enumerations of src/process.rs and `NetConfig` of src/util.rs.
--   * Filter: `TestFilter` of src/util.rs, which selects tests by their labels. Filter/Parse,
--     Filter/RoundTrip and Filter/Select are its laws, Filter/Unit its unit tests. Regex is the
--     pattern language that the filter uses of the crate regex: the crate is a parameter, an
--     `Engine`, and Regex/Derivative an engine.
--   * Macro: test-macro/src/lib.rs, the expansion of `#[test_fn(…)]` into numbered tests.
--     Macro/Product, Macro/Bindings, Macro/Skip and Macro/Expand are its laws. Macro/Parse reads the
--     parameters from the tokens of an attribute, by parsers of the crate syn; Macro/Parse/Written
--     has the tokens that an annotation is written as, Macro/Parse/Sample such parsers.
--   * Runner: src/main.rs. `select_entry` is the closure of `filter`, `run_test` runs one test, `run`
--     and `main` put the rest together.
--     Runner/Selection, Runner/Failures, Runner/Verdict and Runner/Report are its laws;
--     Runner/Exit is the end of the process, behind the report, and Runner/Suite puts the runner
--     and the tests together.
--   * Junit: src/junit.rs. Junit/Xml is a small language of XML trees, Junit/Report the tree that
--     a report is the layout of, Junit/Escape a reader of escaped text.
--   * Guest: `GuestConfig` of src/process.rs and its command line; Guest/Builder is `QemuConfig` and
--     the first half of `QemuProcess::spawn`, Guest/Migrate compares two command lines.
--   * Process: the rest of src/process.rs: Process/Spawn is `QemuProcess::spawn`, Process/Socket
--     `Socket`, Process/Serial the serial log (`read_chunk`, `poll_line…`), Process/Status
--     `poll_status`, Process/Child `quit_and_wait` and the destructor, Process/Log
--     `save_serial_log`, Process/Port `ssh_port`.
--   * CloudInit: src/cloud_init.rs, the disk that configures a guest. CloudInit/Yaml is the block style
--     of YAML, CloudInit/Layout the documents that the files are the layouts of, CloudInit/Steps and
--     CloudInit/Created are about the steps of `create`.
--   * Scenario: the locals of a test, which are dropped when it returns. Scenario/Outside is what
--     tests use of the outside, with its documented behaviour; Scenario/Ends has the rules by which
--     the end of a test is told from its parts, Scenario/Seen is about `poll_line` in a test. Basic:
--     the tests of src/tests/basic.rs, in which spawn, the serial log and the destructor come
--     together, with Basic/Ends and Basic/Quit. Scenario/Remote is what the tests over SSH use
--     besides, and FullOs the tests of src/tests/full_os.rs, with FullOs/Boot and FullOs/Reboot.
--   * Ssh: src/ssh.rs, with Ssh/Retry for the rounds of `ssh_command`. Migration: `do_migration` of
--     src/tests/migration.rs, with Migration/Success; Migration/Guests is the tests that migrate
--     a guest binary or a kernel, Migration/Os the one that migrates an operating system with the
--     tap devices of the pool.
--   * Taps: the pool of tap devices of src/util.rs. Taps/Exclusive has the steps of tests that take
--     and return pairs in any order, Taps/Devices the names and addresses of the pairs, Taps/Bag the
--     pool as a bag.
--
-- How they interact: the macro makes the entries that the runner selects by the filter and runs on a
-- thread pool; a test takes a pair of tap devices, configures a guest, spawns a process for it, polls
-- its log and its status, and drops the process; the runner gathers the results into a report.
--
-- How the code is modelled. A text is the list of its code points, a `Vec` a list, a number ℕ with the
-- bounds of its type where it is parsed; `anyhow::Result` is `Result`, whose error is the chain of its
-- messages. What a program changes outside itself is a state `W` of a `Host` (Host), which has a clock
-- and the shutdown flag; a call to the outside takes a state and returns one, so that time passes and
-- signals arrive in between. Such calls are parameters: the QMP connection, the child process, the
-- file system, the serial file, the program `ssh`, the patterns of tests, the thread pool and the
-- shuffling. A loop is `repeat_rounds` of Host on fuel; the fuel is that of a timeout divided by the
-- pause of the loop, plus two, and for the serial log also the greatest size of the log. Host/Rounds
-- is about such loops, Host/Sample a small machine for examples. Code that leaves by `?` between calls
-- is a `Task` (Host/Task); Host/Task/Safe has tasks with a promise, put together as the code is, and
-- Host/Task/Told tasks that return, with what their success says of the states before and behind.
--
-- What is not modelled: printing and logging, the parsers of the crate syn and the tokens that the
-- macro puts out, the handler of SIGINT, the build script, and the guests themselves (assembler and
-- C). A panic is an error of its function, as in the macro and where the pool of tap devices is
-- filled; left out are those of a thread pool that cannot be built, of a drop of a pair with a
-- poisoned lock, and of a parameter of a test whose pattern is no name. Paths are joined with a slash.
pub mod Basic
pub mod CloudInit
pub mod Config
pub mod Filter
pub mod FullOs
pub mod Guest
pub mod Host
pub mod Junit
pub mod Macro
pub mod Migration
pub mod Number
pub mod Options
pub mod Prelude
pub mod Process
pub mod Regex
pub mod Runner
pub mod Scenario
pub mod Ssh
pub mod Taps

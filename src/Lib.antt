-- ===== src/Lib.antt =====
-- A model of parts of Mr Crabs, a terminal emulator in Rust, with theorems about them. Paths
-- below are from the root of the repository. The terminal application shows tabs; a tab owns
-- panes in a binary split tree; each pane feeds the output of a process into a terminal engine,
-- whose frames a renderer paints with the help of caches.
--
-- The parts, and the files that model them:
--
-- - Split (crates/mr-crabs-app/src/model/split.rs): Split/Axis.antt has the axes, directions and
--   rectangles, Split/Tree.antt the tree with `split`, `remove`, `contains` (here `holds`),
--   `panes` and `len`, Split/Resize.antt `resize`, Split/Layout.antt `rects` and `bounds_of`,
--   Split/Focus.antt `next` and `neighbor`. The modules below each of them prove its laws.
-- - Tab (crates/mr-crabs-app/src/model/tab.rs): Tab.antt has the pane map with the tree and the
--   focus, and `new`, `from_parts`, `focus_pane`, `insert_split_pane`, `close_pane`,
--   `close_all`, `cycle_pane`, `goto_split`, `resize_split` and
--   `update_title_from_focused_pane`. It calls the operations of Split.
-- - Texture (crates/mr-crabs-graphics/src/texture.rs): the least-recently-used cache with `get`,
--   `insert`, `remove` and `enforce_budgets`.
-- - Grid (crates/mr-crabs-terminal/src/lib.rs): sizes, cells and damage.
-- - Frame (crates/mr-crabs-terminal/src/delta.rs and frame_pool.rs): Frame.antt has the frames
--   with `empty`, `clear_for_reuse` and `take_row`, Frame/Runs.antt `batch_runs`,
--   Frame/Pool.antt the pool; Frame/Batch.antt and Frame/Recycle.antt prove their laws.
-- - SideTables (crates/mr-crabs-terminal/src/side_tables.rs): SideTables/Index.antt has what the
--   tables share, Styles.antt the style table, Clusters.antt the tables of graphemes, hyperlinks
--   and regions, Remap.antt the compaction of the styles; Interning.antt, Stable.antt,
--   Restore.antt and Live.antt prove their laws. `Style` is a parameter with its equality and
--   its default.
-- - History (crates/mr-crabs-history/src/viewport.rs and selection.rs): History/Viewport.antt
--   has the scroll position, History/Projection.antt `viewport_row`, History/Selection.antt
--   `normalized`, `expand_word` and `expand_line`; the modules below them prove their laws. The
--   loops of `expand_word` take the length of the row as fuel, that of `expand_line` any number
--   beyond the distance of the last row.
-- - Apc (crates/mr-crabs-protocols/src/apc.rs): Apc.antt has the handler of application program
--   commands, with `start`, `feed`, `feed_slice`, `end` (here `end_command`) and
--   `parse_glyph_request`, Apc/Scanner.antt the scanner of the stream; Apc/Slice.antt and
--   Apc/Bounds.antt prove laws of the handler.
-- - Feed (crates/mr-crabs-app/src/model/pane.rs): Feed/Tap.antt has `Osc1337Tap`, Feed.antt
--   `feed_chunk_scanned`, which runs the tap and the scanner over a chunk and calls the engine,
--   a parameter; Feed/Safety.antt and Feed/Delivery.antt prove its laws. An error of the engine
--   returns at once, with the parts as they are then.
-- - Window (crates/mr-crabs-app/src/model/window.rs): Window.antt has the map of tabs with their
--   order and the active tab, over the operations of Tab, Window/Order.antt what it does with
--   lists of identities, Window/Startup.antt `StartupPresentation`. Window/Invariant.antt has
--   the invariant, Window/Keeps.antt, Window/Tabs.antt and Window/Reach.antt prove it and the
--   laws of `close_tab` and `cycle_tab`.
-- - Persist (crates/mr-crabs-history/src/persist.rs): Persist/Bytes.antt has the bytes, the
--   errors and `crc32`, Persist/Format.antt the types and limits, Persist/Encode.antt `encode`,
--   Persist/Decode.antt `decode` and Persist/Capture.antt `capture`, whose terminal is a record
--   of its reads. Persist/Lines.antt, Persist/Cutting.antt, Persist/Chunks.antt and
--   Persist/Loop.antt have the lemmas of the round trip in Persist/RoundTrip.antt, and
--   Persist/Written.antt those on the errors of `encode`. serde_json and lz4_flex are the record
--   `Codec`, and what is relied on of them is `IsFaithful`. The cutting into chunks takes the
--   number of lines as fuel; each chunk has a line.
-- - Queue (crates/mr-crabs-pty/src/queue.rs): Queue.antt has the bounded queues with `try_send`
--   and `send_timeout` and the mapping of their errors, Queue/Delivery.antt and
--   Queue/Ending.antt prove their laws. A `sync_channel` is a list with a capacity; what the
--   receiver does while a sender waits is a list of rounds, which is the fuel of the loop. The
--   last time that an `Instant` holds is a parameter, and a deadline beyond it is the panic of
--   `Instant::now() + timeout`.
-- - Storage (crates/mr-crabs-terminal/src/storage.rs): Storage.antt has the pages and the state,
--   Storage/Codec.antt `compress_payload` and `decode_page`, Storage/Compress.antt the queue to
--   the worker, the worker in two steps and its results, Storage/Limit.antt `trim_front_page`,
--   `enforce_max_lines` and `truncate_lines`, Storage/Ingest.antt `ingest_owned_row`,
--   `ingest_owned_rows_with_bounds`, `ingest_owned_flat_page` and `push_line`, Storage/Read.antt
--   `line_cols`, `read_line_with_combining` and `fold_lines`. Storage/Pages.antt says which
--   lines a storage stands for, with the pages on their way through the worker, and
--   Storage/Booking.antt has the invariant; the other modules prove laws. lz4_flex is the record
--   `Lz4`, and what is relied on of it is `IsLossless`. The fuel of `drain_compression` counts
--   the polls until the worker is done, one job from poll to poll.
-- - Common: shared names, Boolean tests, lists, maps and machine words.
--
-- How the code is read: a method on `&mut self` returns the new state with its result. A panic
-- is `none`, as are the failed `expect` calls. Numbers are natural numbers; where the arithmetic
-- of a release build wraps, the modulus is written out. `BTreeMap` is an association list in the
-- order of its keys and `HashMap` one with distinct keys in some order. `f32` is no part of the
-- repository: Split/Float.antt takes its operations as a record and the documented behaviour of
-- `clamp`, of the casts and of NaN as the laws `IsIeee`; Split/Tests/Milli.antt is a concrete
-- instance. A pane in Tab has its identity, title and focus sequence, and a parameter for
-- everything else, with the effect of the session's shutdown as a function on it.
--
-- Fuel: the loop of `enforce_budgets` takes the number of entries plus one; each round removes
-- an entry, so that the loop ends by its own test.
--
-- Not modelled: the operating system (processes, threads, file descriptors), painting, the
-- terminal engine and its parsers for OSC, DCS and SGR, in storage.rs `push_cells`, the taking
-- back of rows, the forced compression and restoring and the census of styles, configuration and
-- input encoding; in tab.rs and window.rs the pumping of output, which goes through the PTY, and
-- the resizing of the panes' grids; in window.rs the animation settings and the layout of the
-- startup animation, which is float arithmetic.
pub mod Common
pub mod Split
pub mod Tab
pub mod Texture
pub mod Grid
pub mod Frame
pub mod SideTables
pub mod History
pub mod Apc
pub mod Feed
pub mod Window
pub mod Persist
pub mod Queue
pub mod Storage

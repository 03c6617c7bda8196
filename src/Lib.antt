-- ===== src/Lib.antt =====
-- Verification of the firmware's portable core: the console's byte ring, line editor, command line
-- parser and command history, the formatter, and the pipeline of camera frames.
--
-- A console's bytes go from an interrupt handler through a byte ring to the shell's thread, where
-- the line editor makes a line of them. A line is split on ';' into segments, and a segment is parsed in place: it is cut into words, the words
-- lead down the tree of commands, and the last word of the path and the arguments go to a handler.
-- A camera's frames go from the producer, which acquires a slot, fills it and publishes it, to
-- sinks, each of which pins the slots that it still reads.
--
-- The files:
--   UartRing        shell/backend/cli_uart_ring.h. Ring is struct cli_uart_ring, and put, get,
--                   put_buf, get_buf, count, free, contig and advance_tail are the functions with
--                   the prefix cli_uart_ring_. UartRing/Queue is the bounded FIFO that it
--                   implements, UartRing/Bounds the invariant.
--   Shell/Token     next_token and cli_tokenize of shell/core/cli_parse.c. Shell/Token/Lexer is
--                   the byte machine that they implement, with no memory and no addresses.
--   Shell/Segment   cli_next_segment of the same file.
--   Shell/Parse     cli_parse, match_root and match_sub of the same file. Shell/Parse/Sound says what
--                   each status means of the words of the line and of paths in the tree.
--   Shell/Background  cli_segment_is_background of the same file. Background/Candidate is
--                   the '&' that it looks for.
--   Shell/Number    cli_parse_u32 of the same file. Shell/Number/Numeral is the number that a
--                   string denotes.
--   Shell/Address   cli_parse_ipv4, cli_parse_ipv4_cidr and cli_ipv4_mask_bits of the same file.
--   Shell/History   shell/core/cli_history.c. Shell/History/Lines is the list of lines that it
--                   implements, Shell/History/Recall the moves up and down in it.
--   Shell/Output    shell/core/cli_printf.c: the staging buffer, cli_write and what it calls.
--   Shell/Edit      shell/core/cli_edit.c. Edit/State is the state, Edit/Render the drawing, Edit/Buffer
--                   and Edit/Ops the operations and Edit/Keys cli_input_byte. Edit/Keymap is what the
--                   keys do to a list of characters with a cursor, Edit/Refine, Edit/Typing and
--                   Edit/Machine that the operations do it, Edit/Invariant and Edit/Always what every
--                   byte keeps.
--   Shell/Complete  shell/core/cli_complete.c. Complete/Scan is what the candidates share,
--                   Complete/Insert and Complete/Order what a completion does to the line.
--   Shell/Print     the rest of cli_printf.c, less the hex dump: vemit and the calls that it serves.
--   Fmt             svc/fmt.c. Fmt/Sink is that the sink only sees bytes, Fmt/Digits fmt_utoa,
--                   Fmt/Render what is written, Fmt/Kinds and
--                   Fmt/Arguments what a format asks for, Fmt/Buffer fmt_vsnformat, and Fmt/RoundTrip the way
--                   from it to cli_parse_u32.
--   FramePipeline   svc/frame_pipeline.c. Pipeline is struct frame_pipeline with the store of the
--                   sinks; FramePipeline/Ledger is the record of the pins that are out, and
--                   FramePipeline/Run the calls as steps.
--   Rotate          svc/gfx_rot.c. Rotate/Pixels is that a column is one write, Rotate/Turned where
--                   each pixel goes.
--   Base            the memory of bytes, C strings, lists and options that these share.
--
-- Memory is a function from addresses to bytes, and a C string is the list of its bytes, with no
-- NUL among them. The parser's loops take fuel, one unit a byte; the theorems ask for more fuel
-- than the line is long, and say that it then does not run out. The formatter's loop takes a unit for each
-- byte of the format. The rotation's loop takes a unit for
-- each run of pixels, and is given one for each pixel. The history's loops take fuel for
-- its buffer of 512 bytes, and the editor gives it 513. The mutex of a console and its transport answer
-- as two functions say that the model is given, Tx; cli_dispatch_line and cli_tab_complete are given
-- to the editor the same way, Hooks. size_t and uint32_t have 32 bits and wrap. A handler is a number that
-- stands for a function. What a function does under the pipeline's lock is one step, and the
-- callbacks of a sink stand between steps; of frame_pipeline_attach, the test of
-- the sinks' number and the link are one step, which the code does under the lock taken twice.
--
-- Not modelled: frame_pipeline_stats, the hex dump of cli_printf.c, the output of a background job, and the
-- rest of the firmware: the dispatch of a line and the jobs (cli_session.c, cli_job.c, cli_core.c), the
-- log, YMODEM and other services, and what drives peripherals or calls ThreadX, NetX Duo, FileX and
-- other libraries that are not in the repository.
pub mod Base
pub mod UartRing
pub mod Shell
pub mod FramePipeline
pub mod Fmt
pub mod Rotate

-- ===== src/Lib.antt =====
-- A model of the debuggee-side runtime of the Userland Debugger Interface (UDI), the C library of
-- libudirt/src that is loaded into a process and executes a debugger's requests, on x86_64 Linux.
--
-- The parts and how they interact. A request arrives on a pipe as CBOR items: a type and, for most
-- types, a map. libudirt/src/udirt-msg.c reads it, calls the handler of the type, and writes a
-- response of two or three items. The handlers read and write debuggee memory and keep a table of
-- breakpoints (libudirt/src/udirt.c), write the breakpoint instruction and compute where an instruction
-- goes next (libudirt/src/udirt-x86.c), and read and change the registers of a stopped thread
-- (libudirt/src/udirt-linux-x86.c). Error messages go through the formatter of udirt.c. A signal starts
-- it all: its handler (libudirt/src/udirt-posix.c) stops the other threads, decodes what happened,
-- writes an event, and executes requests until the debugger lets the process go on. The actions of
-- the application for signals are kept apart (libudirt/src/udirt-posix-sys.c), as are its threads
-- (libudirt/src/udirt-posix-pthreads.c).
--
-- The files:
--   Prelude: names, Boolean tests and lists that the others share.
--   Cmd: a C function on a state, as a state transformer that may fault or run out of rounds.
--   Format: udi_log_integer to udi_log_varargs and udi_formatted_str of udirt.c.
--   Machine: the state below the requests, a record: debuggee memory with permissions by page, the
--     globals of udirt.c that guard an access, the heap of breakpoint structures, the table, the error
--     message. Operations: abortable_memcpy, udi_memcpy, read_memory and write_memory of udirt.c, with
--     decode_memory_access_event and the hooks of libudirt/src/udirt-posix.c.
--   Breakpoint: create_breakpoint, install_breakpoint, remove_breakpoint,
--     remove_breakpoint_for_continue, delete_breakpoint and find_breakpoint of udirt.c,
--     write_breakpoint_instruction and write_saved_bytes of udirt-x86.c. Chain relates the linked
--     structures to lists; Find, Linked, Create, Install, Delete and Unlink are about the
--     operations.
--   Register: register_str and validate_register of udirt.c, is_gp_register and is_fp_register of
--     udirt-x86.c, get_register and set_register of udirt-linux-x86.c. A context is its gregs array.
--   X86: get_ctf_successor of udirt-x86.c and what it calls.
--   Msg: events and items; Msg.Read: read_cbor_items; Msg.Request: the callbacks; Msg.Debuggee: the
--     state of the handlers, a record round the one of Machine; Msg.Write: read_request_data,
--     read_request_type, write_response and the error response; Msg.Fields: what is stored of each
--     request for the process; Msg.Process and Msg.Thread: the
--     handlers and their dispatch; Msg.Events: write_event and the events; Msg.Hit: decode_breakpoint;
--     Msg.Init: perform_init_handshake; all of udirt-msg.c.
--   Signals: setup_signal_handlers, uninstall_signal_handlers, sigaction, signal and
--     app_signal_handler of udirt-posix-sys.c, on a state of their own; Signals.Hooks:
--     pre_mem_access_hook and post_mem_access_hook of udirt-posix.c.
--   Barrier: block_other_threads and release_other_threads of udirt-posix.c, on a state round the one
--     of the handlers; Barrier.Answers: what signal_entry_impl of udirt-posix.c stores in the structure
--     of a suspended thread before its sentinel.
--   Files and Msg.Files: the state of the files, and thread_create_callback and
--     thread_death_handshake of udirt-posix.c.
--   Threads: create_thread, find_thread and handle_thread_death of udirt-posix-pthreads.c;
--     Threads.Handshake: thread_create_handshake and handshake_with_debugger of udirt-posix.c, with the
--     callbacks that open response pipes.
--   Runtime: block_for_request and wait_and_execute_command of udirt-posix.c.
--   Entry: what signal_entry_impl of udirt-posix.c does between the calls of the barrier, and
--     install_event_breakpoints of udirt-posix-sys.c.
--   Handler: signal_entry_impl as a whole, on a state that holds all others.
--   Paths: get_thread_dir and get_thread_file of udirt-posix.c.
--   Filesystem: create_udi_filesystem of udirt-posix.c; Start: init_udirt and the steps that it
--     composes, on the state of Handler.
--   Wrappers: pthread_create, pthread_exit, wrapped_start_routine and what they call, of
--     udirt-posix-pthreads.c; Fork: fork and execve of udirt-posix-sys.c.
--   Transfer: read_from, write_to and handle_pipe_write_failure of udirt-posix.c, in pieces.
--   Tests: concrete inputs.
--
-- Conventions. NULL is 0. A C function that returns 0 on success is one that returns true. A fault is
-- undefined behaviour (a NULL or freed pointer, an index past a table) or an abort. Numbers of a
-- width keep their wrap-around in writing. What the operating system and the allocator answer is a
-- list of outcomes that calls use up, where an empty list of outcomes is success, or a predicate on
-- sizes. Calls of udi_log are left out: they print.
--
-- Rounds. A loop over a bucket of the table has one round more than structures were ever allocated,
-- which bounds a chain of distinct structures. The loop that reads a message has one round more than
-- there are bytes on the pipe, since each round takes at least one byte. The loop that executes requests
-- has one round more than there are outcomes of select to come, since each round takes at least one;
-- when they are used up the process waits for good, as it does for a byte that no other thread sends.
-- An instruction that faults is run again at most as often as the machine's fault_rounds say; one time
-- is enough where the page is accessible.
--
-- Parameters. libcbor (its decoder, its serializer), strerror and udis86 (the decoder of
-- instructions) are not part of the repository's own code. The law used of the decoder is that it
-- asks for more bytes than it was given.
--
-- Threads. The functions that wait for other threads are modelled as the waiting thread sees them: what
-- the others do in the meantime is a function on the shared state that comes with the byte read.
--
-- Files. A call of the operating system with a name takes the next outcome, and the calls that succeed
-- are kept in their order. The allocator grants a size or not, and what fresh memory holds is given.
--
-- Not modelled: Windows and Darwin, 32-bit processes, the allocator (a copy of dlmalloc), the test
-- programs and the Rust libraries. The numbers of handles are left out: a handle is what stands
-- behind it. What the loader puts into the pointers of the wrapped functions is left out too; their
-- results are arguments. In the request handlers a write that fails is taken to have written nothing.
pub mod Prelude
pub mod Cmd
pub mod Format
pub mod Machine
pub mod Breakpoint
pub mod Register
pub mod X86
pub mod Msg
pub mod Signals
pub mod Barrier
pub mod Threads
pub mod Runtime
pub mod Entry
pub mod Handler
pub mod Paths
pub mod Files
pub mod Filesystem
pub mod Start
pub mod Wrappers
pub mod Fork
pub mod Transfer
pub mod Tests

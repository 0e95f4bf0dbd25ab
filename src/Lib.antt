-- ===== src/Lib.antt =====
-- trafix is a terminal monitor of a Linux machine's network: it parses a command line, loads its
-- configuration, collects data from /proc and from commands, and shows them in a terminal interface or
-- prints them once; it can also end a process or drop a connection. This library models the parts of
-- the program that decide, and proves what makes them correct.
--
--   Cstr            what the code uses of the C library's strings: a string is the list of its bytes;
--                   strtol, atoi, printf's numbers, fgets, strtok, strchr, sscanf, qsort, the truncation
--                   of snprintf
--   Prelude         lists, Boolean tests and signed integers over the native natural numbers
--   Cli             src/trfx_cli.c: `trfx_parse_cli`, one function per block of it (Cli.Parse)
--   Config          src/trfx_config.c: `read_config`, profile paths, `trfx_load_runtime_config`
--   Actions         src/trfx_actions.c: requests, the review, the execution with its effects, the audit
--                   ring (`trfx_execute_action_request` is Actions.Execute.execute)
--   Layout          src/trfx_layout.c: the geometry of the two columns
--   Runtime         src/trfx_runtime.c: the state that the threads share, as sequences of whole calls
--   SupportViews    src/trfx_support_views.c: the table of views and the selected one
--   Samples         the history of samples at the end of src/trfx_netinfo.c
--   Netinfo         src/trfx_netinfo.c: the default route (Routes), the DNS servers (Dns), the counters of
--                   /proc/net/dev (Stats) and their rates (Rates), the interfaces and their states
--                   (Interfaces), the whole snapshot and its summary lines (Snapshot)
--   SocketOwners    src/trfx_socket_owners.c: the map from inodes to processes, and the table of owners
--   Connections     src/trfx_connections.c: the rows of /proc/net/tcp and its like (Rows), their owners and
--                   order (Rows.Files), the table of connections (Summary), the names of states, and the
--                   focus that the threads share
--   Bandwidth       src/trfx_bandwidth.c: the sockets of each process (Groups), the report and its flows
--                   (Report), the points of the trend (Trend)
--   Diagnostics     src/trfx_diagnostics.c: the log lines, their sources, the alerts, the whole snapshot
--   Output          src/trfx_cli_output.c: the tables and the JSON documents, as the bytes that are printed
--   App             src/trfx_app.c: the commands `kill` and `drop`, those that show (App.Query), and the
--                   dispatch of src/trafix.c (App.Main)
--   Dashboard       src/trfx_dashboard.c: the sizes of the panels (Frame), the popups as loops over keys,
--                   the two actions (Acting), what each key does (Keypress), the main loop (Session)
--   Threads         src/trfx_threads.c: the bandwidth state that the threads and the keys share, and what
--                   panels show of the network (Network), of connections (Panels) and of interfaces
--                   (Interfaces, with the sort by exchange of Cstr.Exchange)
--   Utils           src/trfx_utils.c: text that is cut, and endpoints that are shortened, for the terminal
--   Tests           the theorems at concrete inputs
--
-- How they meet in the program: `main` parses the command line (Cli), loads the configuration
-- (Config), and for `kill` and `drop` builds a request and executes it (Actions), which is recorded in
-- the audit ring; for the commands that show, it collects (Netinfo, Connections, SocketOwners) and prints
-- (Output). Connections asks SocketOwners for the processes that own its rows; Bandwidth joins both with
-- the rates of Netinfo; the snapshot of Diagnostics holds those of Netinfo. The terminal interface
-- (Dashboard) reads the layout, the views and the runtime state, moves the focus of Connections and of
-- Threads, and builds the same requests of Actions as the commands do.
--
-- State is passed explicitly: the static variables of a file are a record, and a function that changes
-- them returns the new one. A function under a lock for its whole body is one step, so what threads do
-- is a sequence of steps. What a function asks of the system (files, directories, addresses, the
-- environment, users, `kill`, `ss`) is a record of functions that a caller supplies (World, System, Proc,
-- Net, Machine), and what it does there is a list of effects. `qsort` is such a parameter too, with what
-- the C standard says of it (Cstr.Sort). Buffers keep their sizes: a text is cut where `snprintf` cuts it.
-- A pointer that may be null is an option.
--
-- Keys: the keys that a user presses are a list. A loop over keys that gets no more of them waits on, which
-- is `none`. The main loop, `run_keys`, runs on fuel, and each round takes at least one key, so
-- more fuel than there are keys is enough.
--
-- Fuel: the two loops of `trfx_support_view_next_index` run on fuel, one more than the distance from 0,
-- which is enough since each round changes the index by eight (SupportViews.Cycle shows that the loops
-- end); the digits of `%u` run on one more than the number, and the sort by exchange on the number of
-- places. Other loops are by recursion on a list.
--
-- Integers: `int` and `long` are exact integers, with the clamp of `strtol` and the conversion to 32
-- bits written out (Cstr.Number); hexadecimal numbers are read into 32 bits, and
-- the difference of two counters of 64 bits wraps around (Netinfo.Rates). The addresses of /proc/net/tcp
-- are those of a little-endian machine. The sizes of a screen are not negative, and products with 0.25 and
-- 0.20 are quotients by 4 and 5. A string holds no NUL. Floating-point numbers are a type with the
-- operations that the code uses, as a parameter (Doubles, Floats).
--
-- Not modelled: drawing and colours, the start of threads and their sleeping loops, and the lines of the
-- other panels (the rest of src/trfx_dashboard.c and src/trfx_threads.c), which are effects on a screen
-- or on the clock; the collectors that read the machine (CPU, memory, disks, processes, Wi-Fi), which are
-- parameters where they are used; what `kill` and `drop` print; the functions of src/trfx_netinfo.c that
-- print a routing table or the usage of interfaces.
pub mod Prelude
pub mod Cstr
pub mod Cli
pub mod Layout
pub mod Runtime
pub mod SupportViews
pub mod Samples
pub mod Actions
pub mod Config
pub mod Tests
pub mod Netinfo
pub mod Diagnostics
pub mod App
pub mod Output
pub mod Connections
pub mod SocketOwners
pub mod Bandwidth
pub mod Dashboard
pub mod Threads
pub mod Utils

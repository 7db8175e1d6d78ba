-- ===== src/Lib.antt =====
-- Verification of the Jumpstarter provider, the MCP server of examples/jumpstarter that puts one
-- hardware exporter behind five tools, hands it to one session at a time, and streams its console.
--
-- The provider has four parts. The claim says which session holds the exporter and until when; it ends
-- by `release` or by silence, and a callback then takes the offered console stream back. The tools
-- check the claim on the event loop and then ask the exporter, on a worker thread, for what the caller
-- wants. The console stream is one WebSocket that a one-time token opens. The exporter keeps a
-- thread to use the SDK on, and shapes what comes back from it.
--
-- Files, by the Python file under examples/jumpstarter/src/jumpstarter_provider that they model:
--   Claims             provider.py, class Claims: one function per method. Claims/Laws has what each
--                      method answers, Claims/History the step of any call and Claims/History/Keeping
--                      who keeps a claim, Claims/Streams the stream counters, Claims/Callback the
--                      callback, Claims/Reaper what a lapsed claim does to each method, Claims/Lease the desk of
--                      leases that a caller sees, which Claims/Lease/Refined relates to the class
--   Provider           provider.py, class Provider: the tools status, acquire, release, power and
--                      driver_call. Provider/Gate has who is let through, Provider/Power the calls that
--                      a power action makes
--   App                provider.py, Provider.app and _session_of. App/Routes has where a request goes,
--                      App/Events all that runs on the event loop, App/Ownership and App/Escape a
--                      stream in any order of it, App/Delivery the way from `acquire` to a stream,
--                      App/Keeps lemmas of them. App/Awaits has
--                      the tools across their awaits (lines 214 to 308 and 365 to 368): in
--                      App/Awaits/Authorised whose calls reach the hardware, in App/Awaits/Order and
--                      App/Awaits/Asked in which order and how many, in App/Awaits/Hardware what a
--                      worker makes of them, in App/Awaits/Handover a cycle whose claim is lost in its
--                      pause
--   Console            stream.py, class Console: offer, release and the check of serve. Console/Token
--                      has the one-time token, Console/Socket an attached socket (serve, _drain and
--                      _pump), Console/Socket/Course the events before its end, and
--                      Console/Socket/Transcript what it sends and writes
--   Exporter           exporter.py. Exporter/Connection is _Connection, Exporter/Worker the loop
--                      _serve, Exporter/Threads the threads and queues behind _ensure, _do and
--                      close, with what can go wrong and what cannot in its child modules,
--                      Exporter/Commands what drivers, methods, call, console_send and console_read
--                      run on the worker, Exporter/Describe _describe, Exporter/Tree _resolve, Exporter/Drain
--                      _drain and _text. Exporter/Commands/Listed joins these with the tools
--   Startup            main.py: the arguments, the environment and the origin that is announced
--   Introspect         introspect.py: offered and resolve. Introspect/Listing relates the two
--   Raster             png_crop of assets/logo/gen.py, which cuts the rendered icons to size: the rows
--                      and their filters. Raster/Chunks has the file around them, Raster/Rows
--                      and Raster/Crops the rows of an image, Raster/Filters the filters of an
--                      encoder, Raster/Files the function from file to file
--   Logo               the rest of assets/logo/gen.py: Logo/Number the operations on floats,
--                      Logo/Colours mix, Logo/Atoms n, pathd, blur and svg, Logo/Solid the prisms,
--                      Logo/Camera the lens and its fit, Logo/Clock bez and ramp, Logo/Intro the class
--                      Intro with its gate, Logo/Frame one instant of it, Logo/Markup a value over the
--                      instants as an attribute or an animation, Logo/Drawing the drawing `build`
--                      with its defs and its layers, Logo/Small the mark for 16 pixels, Logo/Derived
--                      the lockup and the icon, Logo/Outputs the pictures by name, Logo/Rasters the
--                      files that are written, with the renderings by a browser, Logo/Sort list.sort
--                      with a key. Their other child modules have the proofs
--   Dict, Words        what the code uses of Python's dict and str
--   Prelude            library names, comparisons, texts as lists of code points, list lemmas
-- The files named Tests hold concrete runs.
--
-- State. `Claims` has the fields of the class, with the dict `_streaming` as an association list. A
-- `World` is a Claims and a `Bench`, which is what the callback `on_release` changes: the console and
-- the exporter, here a type with the one method `close_console_quietly`. Each method is a function
-- from the state to an answer and the state. A tool is a function up to its first await, and then a
-- `Task`: the calls that it makes on the exporter and what it does with each answer. No tool touches
-- the claims after that point, so a history on the event loop is a list of events, each of which runs
-- without an await. App/Awaits adds to such a history what the tools do when an await of theirs ends: a
-- turn of the loop is an event, or the n-th tool goes on.
--
-- Time. The clock is `time.monotonic`, as a number of nanoseconds, and the deadline and the pause are
-- numbers of the same unit. A function takes the readings that its code makes as arguments, in their
-- order. Nothing is said of the order of the readings unless a theorem has it as a hypothesis.
--
-- Fuel. `Words.decimal` prints n on fuel n + 1, which is more than its digits.
-- `Exporter.Drain.drain_loop` has the number of calls of `expect` for its fuel, and is given one more
-- than the chunks that the console says before it is silent. `Raster.Chunks.chunks` has the number of
-- bytes of the file, of which a turn takes twelve or more. All other loops are recursion on a list.
--
-- Parameters, for what is not in the repository: the UTF-8 codec, `json.loads`, `pexpect`'s expect, the
-- value of `secrets.token_hex`, `zlib`, the transport of a socket (whether it takes a frame), what the
-- SDK does when a console is opened, and the answers of the exporter. Exporter/Commands takes a record
-- `Sdk` of the tree of clients and of the calls that have an effect. `int` and `float` of a text are
-- parameters of `main`. A Python float is an element of the record `Float` of Logo/Number, which has
-- the operations and no law, so that nothing is assumed of rounding. A font is a record of its
-- glyphs; the browser of the rasteriser is a function from a page and a window to a screenshot. Texts
-- are lists of code points.
--
-- Threads. A state of Exporter/Threads counts the callers that are at each place of `_ensure`, and has
-- every worker that was ever started. The time-outs are steps that may happen at any time.
-- Callers come in only while fewer than the 40 threads of anyio's default limiter are taken.
--
-- Not modelled: the MCP server and its HTTP transport, uvicorn, and the SDK, which are packages that
-- the provider calls, and an exception of the SDK's own `__exit__`. Of gen.py, what it prints.
pub mod Prelude
pub mod Dict
pub mod Claims
pub mod Console
pub mod Words
pub mod Provider
pub mod App
pub mod Exporter
pub mod Introspect
pub mod Raster
pub mod Startup
pub mod Logo

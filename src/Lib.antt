-- ===== src/Lib.antt =====
-- emilua: fibers, their synchronisation primitives, the messages of actors, and byte spans.
--
-- Emilua runs Lua fibers on strands. Each VM (`vm_context`) has a table of fibers and a strand, a
-- queue of calls that runs one at a time. A fiber runs until it ends or yields; whatever wakes it
-- posts a call of `fiber_resume` to the strand. The primitives `mutex`, `recursive_mutex`,
-- `condition_variable`, `promise` and `future` and the handles of fibers are userdata that keep
-- queues of suspended fibers. An interrupter is a closure that a suspended fiber leaves for
-- `fiber:interrupt()`. Byte spans are windows on shared arrays of bytes, with a size and a capacity.
--
-- An actor is a VM with an inbox. Actors of one process deliver messages by posting to the strand of
-- the receiver; actors of other processes write them to sockets that the inbox listens on while a
-- fiber waits. A message has a fixed number of 64-bit members, a buffer of strings, and descriptors.
--
-- Files and what they model (paths from the repository's root):
--   Common       tests, lists, counts and integers that the other modules share
--   Runtime      the state of one VM: include/emilua/fiber.hpp, include/emilua/mutex.hpp,
--                the fiber table and the suspension guards of include/emilua/core.hpp and
--                src/core.cpp (`unsafe_can_suspend`, `set_interrupter`), and the handles of the
--                primitives. Fibers and userdata are indices into tables; a native function is a
--                state transformer that returns, raises or yields (the monad `M`).
--                Runtime/Places counts the wake-ups that a fiber still has to come,
--                Runtime/Checks has the tests at the start of the functions, Runtime/Steps what a
--                call of a mutex leaves as it is
--   Mutex        src/mutex.cpp: `mutex_lock`, `mutex_try_lock`, `mutex_unlock`
--   RecursiveMutex  src/recursive_mutex.cpp, under the same names
--   Cond         src/condition_variable.cpp: `wait` is `cond_wait`, `notify_one`, `notify_all`, and
--                `interrupt_wait` the closure that `cond_wait` sets
--   Future       src/future.cpp: `promise_set_value`, `promise_set_error`, `promise_mt_gc`, `get` is
--                `future_get`, and `interrupt_get` its closure
--   Fiber        src/fiber.cpp: `spawn`, `join`, `detach`, `interrupt`, the collection of a handle,
--                `this_fiber.yield` and the counters of `this_fiber`
--   Scheduler    `fiber_resume` (include/emilua/core.hpp), `fiber_epilogue` (src/core.cpp) and the
--                histories of a VM as sequences of events: a call of any modelled function by the
--                fiber that runs, its end, or the next call of the strand. Scheduler/Links has the
--                links of handles, fibers, joiners and interrupters, Scheduler/Account the account
--                of the fibers that are alive; Quiet, Silent, Waits and Gets are about the calls
--                that keep the links, Changes, Starts, Joins, Releases, Detaches, Stops, Interrupts
--                and Spawns about the others, Leaves, Resumes, Endings and Wakes about the end and
--                the resumption of a fiber; Histories puts them together
--   Scope        src/scope_cleanup.cpp with bytecode/scope.lua, bytecode/scope_cleanup_pop.lua,
--                bytecode/pcall.lua, bytecode/spawn_start_fn.lua and bytecode/start_fn.lua, under the
--                names of the C++ and Lua functions: the lists of cleanup handlers of one
--                fiber. `Code` stands for chunks of Lua, and `run` is the Lua machine with the
--                functions of scopes. Scope/Fuel is about the size of code, Scope/Handlers,
--                Balance and Root about what code keeps, Scope/Exit about the order of handlers
--   Ipc          include/emilua/actor.hpp: the message, its words and strings. Ipc/Send is
--                `ipc_actor_chan_send` (src/actor.ypp), written for a plain value and for each pair of a
--                table by `put_value` and `put_pair`; Ipc/Locks is `ipc_actor_send_op::on_wait`, Queue
--                and Push are the two readers in `ipc_actor_inbox_op::on_wait` (src/ipc_actor.cpp), the
--                branch without a waiting fiber and the closure `deserializer`; Values has the tables
--                that they fill. Written and Finished are about what is written, Accepts about which
--                values are taken, Strings, RoundTrip, Tables and Delivery about the way of a message,
--                Content about what a message says, Agreement and Readers about the two readers beside it, Prefix, Descriptors and
--                Leaks about what they use and what becomes of the descriptors.
--                Ipc/Inbox is `inbox_t` (include/emilua/core.hpp) with `chan_receive`, `inbox_close`,
--                `inbox_gc`, the tasks that `chan_send` posts, `actor_address` and the rest of
--                `on_wait`; Inbox/Steps its histories, and Invariant, Services, Operations, Histories and
--                Closing are about these
--   ByteSpan     src/byte_span.cpp and include/emilua/byte_span.hpp: ByteSpan/Append the two
--                `append` functions, ByteSpan/Strings the searches and `trimmed`, ByteSpan/Access
--                indexing and the metamethods, ByteSpan/Search the searches of `std::string_view`
--   Tests        runs on small states, and the theorems at concrete inputs
--
-- A number of C++ is a natural number with its bound written out: the counter of a recursive mutex is
-- in a `std::size_t` of 64 bits, and the sizes of spans are in a `lua_Integer` of 63 bits where they
-- are summed; other sizes are those of arrays that exist. A member of a message is its 64 bits, and
-- the number of members, which the build sets (20 if nothing is said), is a parameter: any number above
-- two where that counts, and at most 255, so that the count of descriptors fits its `std::uint8_t`.
-- The answers of the kernel (`socketpair`, `recvmsg`, `sendmsg`) are parameters. The loops are over
-- lists and counts; only `Scope.run` has fuel, because a handler is run from where it was stored, and
-- the size of the code and of the handlers that are registered bounds what it needs. At the end of a
-- fiber each handler of the root scope may register as much again as it is, so the bound doubles with
-- each. A call whose behaviour is undefined in C++ (`inbox_close` with an entry whose pointer to a VM
-- is null) gives nothing, and no history goes on from it.
--
-- Not modelled: exhausted memory, error messages and stack traces, the panic printer, the loading
-- of modules and their fibers, coroutines, the start of actors, the copy of Lua values into a
-- message of the same process, the destruction of a VM, containers, input and output (sockets,
-- files, processes, timers, TLS, regular expressions, JSON), and the lookup tables of the `__index`
-- metamethods. The code that runs in scopes neither disables nor restores the interruption itself,
-- registers functions only, and is not interrupted while it runs. Numbers that are not integers are
-- not distinguished by `lua_tointeger`. What an array holds before it is written is a parameter of
-- the memory.
pub mod Common
pub mod Runtime
pub mod Ipc
pub mod Mutex
pub mod RecursiveMutex
pub mod Cond
pub mod Future
pub mod Fiber
pub mod Scheduler
pub mod Scope
pub mod ByteSpan
pub mod Tests

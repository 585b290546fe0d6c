-- ===== src/Lib.antt =====
-- nginx-rpc: RPC methods for nginx, run by processes of their own. The process that serves a request
-- copies its body into a task in shared memory and hands the task to an idle RPC process; that
-- process runs the method and gives the task back; the answer is then sent.
--
-- The parts and the files that model them; the sources are in ngx_rpc_module/ where no other
-- directory is named:
--
--   Common, Common/Lists, Common/Int: numbers, lists and signed integers, for all parts.
--   Ring and its children: the doubly linked rings of nginx's ngx_queue_t, as the module's own code
--     writes them. A node is named by the struct that embeds it; the pointers are two functions.
--     Ring/Push has the writes that link a node in, Ring/Pop those that take the first one out,
--     Ring/Frame what such writes leave alone.
--   Heap, Memory: buffers and chains in the pools, the structs by their numbers, and the calls that
--     leave the program, recorded as effects. nginx's ngx_queue_init and ngx_queue_empty are a
--     parameter with the laws of their documentation (QueueMacros).
--   Notify: ngx_rpc_notify.c. A notify has an eventfd and a queue of pending tasks.
--     push_task, pop_task, register, unregister, read_handler and write_handler are the functions
--     of these names. Notify/Fifo is the queue against a list, Notify/Register the registration,
--     Notify/Wake the loop of the read handler.
--   RpcQueue: ngx_rpc_queue.c. The queue object has a slot with a notify for each process, and the
--     ring of the idle processes. RpcQueue/View is the abstract view of all rings, RpcQueue/Dispatch
--     the calls on it, RpcQueue/Ready and RpcQueue/Life making and releasing the object.
--   Drain: the loop over pop_task, in ngx_rpc_process.c and in ngx_http_rpc.c.
--   Interleaving: the critical sections of all processes on the shared rings, as a step relation whose
--     steps show an event each. Interleaving/Board is the same on lists, without pointers;
--     Interleaving/Soundness is what holds in every state that the steps reach, Interleaving/Sections
--     each section and Interleaving/Invariant all steps, and Interleaving/Waiting is about how long a
--     task waits.
--   Process: ngx_rpc_process.c. Process/Cycle is one cycle of a process, Process/Relink a cycle of a
--     process that is offered already, Process/Zones the configuration of the shared zone.
--   Task: ngx_rpc_task.c. Task/Chains, Task/Round and Task/Copy are the copy of a request's buffers,
--     Task/Replace the copy to a chain in use, Task/Release the release of a task.
--   Http: ngx_http_rpc.c. Http has the handlers of a request and of a finished task, Http/Subrequest
--     forwarding and the end of a subrequest, Http/Worker the start and the exit of a process.
--     Http/Forward is about what forwarding makes of a request.
--     Http/Entry is about the content handler, Http/Post and its steps in Http/Fill about the handler
--     of a request whose body has arrived, Http/Answer about the end of a subrequest, Http/Headers is
--     the rewriting of the content length. Http/Routes is the table of methods that the start of nginx
--     fills, with nginx's hash as a parameter (NgxHash), and Http/Routes/Lookup what it finds.
--   Stream: ngx_rpc_buffer.cpp, the streams between protobuf and the buffer chains. Stream/Reader is
--     NgxChainBufferReader (Next, BackUp, Skip), with Stream/Reader/Once on one buffer and
--     Stream/Reader/Second on several. Stream/Writer has both writers, whose Next and BackUp are
--     next, shm_next and back_up; Stream/Writer/Served is a message of one buffer, and
--     Stream/Writer/Spill the calls on other chains. Stream/RoundTrip is both streams together.
--   Channel: finish_request and forward_request of ngx_rpc_channel.cpp, with which a method answers or
--     forwards; what is serialized is an argument. Channel/Answer is a cycle with one task,
--     Channel/Journey the way of one request through the processes, Channel/Reply an answer that
--     the stream has written, and Channel/Replied the way of one request to the bytes that are sent
--     back. Channel/Objects has the same functions with the C++ objects that they
--     make, use and delete, and with the constructor, the destructor and foward_done of
--     ngx_rpc_channel.h and ngx_rpc_channel.cpp; a use of a deleted object is a fault there.
--     Channel/Objects/Lifetimes is the destructor.
--   Inspect: ngx_rpc_inspect_module/, the service that is built in: its two handlers and the class
--     Application_server, with foward_done of ngx_rpc_channel.cpp. Inspect/Answers is what they leave
--     in a task. Inspect/Setup is the directive of nginx's configuration that registers them, and
--     Inspect/Setup/Registered the way from there to the table of methods. Inspect/Objects has the
--     handlers with their C++ objects, Inspect/Objects/Interface a request that is answered at once,
--     and Inspect/Objects/Forward and Inspect/Objects/Relayed one that is forwarded. Inspect/Journey
--     is the way of a forwarded request through the processes, with its cycles in
--     Inspect/Journey/Cycles and the whole way in Inspect/Journey/Again.
--   Generator: ngx_rpc_plugin/, the plugin of protoc that writes such a module. Generator/Names has the
--     functions on names, Generator/Templates the texts, Generator/Printing the calls of Print,
--     Generator the header of the services and the config file, Generator/Module the module itself
--     and Generate. Generator/Complete is about the variables of the texts, Generator/Handlers about
--     the handlers that a module defines and registers.
--   Start: the start of a process of either kind, and in Start/FirstTask the way from the
--     configuration to the first task.
--   Modules: the tables by which nginx finds the functions of the modules, in ngx_rpc_process.c,
--     ngx_http_rpc.c and ngx_rpc_inspect_module/; Modules/Once is how often they name each.
--   Log: ngx_log_cpp.cpp, the log that the C++ code is given.
--   TestCase: test/ngx_core_test_case_module.c, the module that runs the tests inside nginx.
--   Tests and its children: concrete values.
--
-- State is passed explicitly. A function that can fault returns an Outcome: done with the result,
-- fault where the code follows NULL or reads out of bounds, no_fuel. A critical section of a lock is
-- one transition, and a handler runs in one process at a time. What other processes do between two
-- critical sections is modelled only for the shared rings, by the steps of Interleaving.
--
-- Loops over chains, and the loop that empties a queue, take fuel, since pointers could form a cycle.
-- The fuel that is enough is the length of the list, and one more where the loop tests its end
-- again. The loop of the read handler runs over the results that the successive reads of the eventfd
-- give.
--
-- What nginx and the kernel do is an argument: which slab allocations are granted, what a lookup
-- returns, whether a connection is added. The k-th slab allocation is a new place; freed memory keeps
-- its contents and is recorded, so a use after a free is not a fault here. The bytes of the slab and
-- of the pools are lists; buffer sizes wrap at 2 ^ 64 as an ngx_uint_t does. Log output is left out.
--
-- Texts are lists of bytes. A printed file is the list of the calls of Print that make it, each with the
-- variables at that time; the Printer of protobuf is not modelled. Replace takes fuel, a round for each
-- byte of its input and one more, which is enough for a search of one byte, the only kind that
-- the generator makes. A message of the built-in service is its JSON text, and what protobuf parses
-- or serializes is an argument; what a message holds after it was parsed, well or not, is one too
-- (Merge). The bound on messages, 4096 bytes, is the first buffer of the stream.
-- The path of a task is the bytes
-- of its buffer up to the last one written, behind which all are zero; a path that is longer than the
-- buffer is not modelled.
-- The loop of the writer to the last element takes one round for an
-- empty chain.
--
-- The C++ objects are numbered as they are made, and an address is not given twice. Application_server,
-- which is made once, is not among them, nor are the copies of std::function.
--
-- Not modelled: ngx_proc_rpc_set_log, which only logs, log output, the part of ngx_rpc_queue.c that is
-- commented out, the macros of ngx_rpc_task.h for the reference count, the metric and the trace, which
-- no code calls, the files that protoc has generated (inspect.pb.cc), and test/test_fork.cpp.
pub mod Common
pub mod Ring
pub mod Heap
pub mod Memory
pub mod Task
pub mod Notify
pub mod RpcQueue
pub mod Drain
pub mod Interleaving
pub mod Process
pub mod Http
pub mod Stream
pub mod Channel
pub mod Start
pub mod Generator
pub mod Inspect
pub mod Modules
pub mod TestCase
pub mod Log
pub mod Tests

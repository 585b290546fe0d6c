-- ===== src/Channel.antt =====
-- ngx_rpc_module/ngx_rpc_channel.cpp: how a method answers, and how it forwards a request. `write`
-- is what serializing a message into the response chain of a task leaves, with the number of bytes
-- that the stream counts.
pub mod Answer
pub mod Journey
pub mod Objects
pub mod Reply
pub mod Replied
use nginx_rpc.Common.{ℕ, Option, none, some, List, ◌++◌, drop, length, put}
use nginx_rpc.Common.Int.{pos}
use nginx_rpc.Ring.{task}
use nginx_rpc.Heap.{Heap}
use nginx_rpc.Memory.{Callee, Task, Memory, set_task}
use nginx_rpc.Notify.{push_task}

-- The end of RpcChannel::finish_request: the task is given back to the notify that waits for it, if
-- there is one.
unfoldable pub give_back : Option ℕ → (r t : ℕ) → Memory → Memory
give_back none r t m = m
give_back (some d) r t m =
    let v = record (m.task t) { finish = record { handler = Callee.request_finish; p1 = r } } in
    (push_task d (task t) (set_task t v m)).1

-- The memory with the answer of task `t` written.
abbrev pub written : (write : ℕ → Heap → Heap × ℕ) (result t : ℕ) → Memory → Memory
written write result t m =
    let (h, total) = write t m.heap in
    let v = record (m.task t) { response_states = result; res_length = pos total } in
    record m { task = put m.task t v; heap = h }

-- RpcChannel::finish_request, for the request `r`.
unfoldable pub finish_request : (write : ℕ → Heap → Heap × ℕ) (r result t : ℕ) → Memory → Memory
unfolding give_back
finish_request write r result t m = give_back (m.task t).done_notify r t (written write result t m)

-- The end of RpcChannel::forward_request.
unfoldable pub pass_on : Option ℕ → (t : ℕ) → Memory → Memory
pass_on none t m = m
pass_on (some d) t m = (push_task d (task t) m).1

-- strncpy of a path without NUL, by its length: it is written over the first bytes and no terminator
-- behind it. The bytes of the buffer behind those of `old` are zero. A path of more than the 128 bytes
-- of the buffer is not modelled; the only one that is passed has 37.
abbrev pub strncpy : (old path : List ℕ) → List ℕ
strncpy old path = path ++ drop (length path) old

-- RpcChannel::forward_request to `path`; `channel` is the new channel, which parses the answer.
unfoldable pub forward_request :
    (write : ℕ → Heap → Heap × ℕ) (r channel : ℕ) (path : List ℕ) (t : ℕ) → Memory → Memory
unfolding pass_on
forward_request write r channel path t m =
    let (h, total) = write t m.heap in
    let v = record (m.task t) {
      res_length = pos total;
      finish = record { handler = Callee.request_forward; p1 = r };
      closure = record { handler = Callee.forward_done; p1 = channel };
      path = strncpy (m.task t).path path;
    } in
    pass_on v.done_notify t (record m { task = put m.task t v; heap = h })

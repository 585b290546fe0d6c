-- ===== src/Tests/Requests.antt =====
-- The theorems on requests and buffers at concrete values.
use nginx_rpc.Http.Subrequest.{subrequest_done}
use nginx_rpc.Common.{ℕ, ◌≡◌, refl, Bool, true, none, some, [], ◌∷◌, arith}
use nginx_rpc.Common.Int.{pos}
use nginx_rpc.Heap.{pool, slab, Spot, req, at, Heap, Chain, bytes, whole_task}
use nginx_rpc.Memory.{Status, ok, error, done, Memory}
use nginx_rpc.RpcQueue.View.{Represents, enqueue, with_idle}
use nginx_rpc.Task.{set_bufs, destroy, zeroed, no_chain}
use nginx_rpc.Task.Chains.{Holds, Source}
use nginx_rpc.Task.Replace.{Filled, set_bufs-replaced}
use nginx_rpc.Task.Release.{Starts, destroy-freed}
use nginx_rpc.Http.{
  Ctx, Conf, Request, send_header, destroy_task, finalize, post_async_handler, http_handler,
}
use nginx_rpc.Http.Entry.{Answered, http_handler-Answered}
use nginx_rpc.Http.Fill.{filled}
use nginx_rpc.Http.Post.{post-handed, post-busy}
use nginx_rpc.Http.Answer.{subrequest_done-failed, subrequest_done-replaced}
use nginx_rpc.Http.Headers.{
  Header, Gives, replace_first, modify_content_length, modify_content_length-replace_first,
}
use nginx_rpc.Process
use nginx_rpc.Process.{process_one_cycle}
use nginx_rpc.Http.{process_notify_task}
use nginx_rpc.Channel.Answer.{answering}
use nginx_rpc.Channel.Reply.{serve, stream_out}
use nginx_rpc.Channel.Replied.{resumed, replies, request-replied}
use nginx_rpc.Heap.{res}
use nginx_rpc.Channel.Journey.{finishing}
use nginx_rpc.Tests.Values.{
  ngx_queue, quiet, nothing, small_heap, body-Source, offering, offering-Represents, one_offered,
  circles-Represents,
}

abbrev pub always : ℕ → Bool
always k = true

abbrev pub always_lem : (k : ℕ) → always k ≡ true
always_lem k = refl

-- Task 5 holds a buffer, and a second one in element 1.
abbrev old_chain : Spot → Chain
old_chain (req t) = record { buf = some (slab 0); next = some (at (slab 1)) }
old_chain (at (slab k)) = record { buf = some (slab 2); next = none }
old_chain s = small_heap.chain s

abbrev pub old_heap : Heap
old_heap = record small_heap { chain = old_chain }

pub old-Source : Source old_heap (some (at (pool 0))) ((2 ∷ 3 ∷ []) ∷ (9 ∷ []) ∷ [])
old-Source =
    Source.link refl refl refl (omega arith) (omega arith) refl
      (Source.link refl refl refl (omega arith) (omega arith) refl Source.empty)

set_bufs-replaced_example :
    (h' : Heap) × (set_bufs always 2 (req 5) (some (at (pool 0))) old_heap ≡ done h')
    × Holds h' (some (req 5)) ((2 ∷ 3 ∷ []) ∷ (9 ∷ []) ∷ [])
    × Source h' (some (at (pool 0))) ((2 ∷ 3 ∷ []) ∷ (9 ∷ []) ∷ [])
set_bufs-replaced_example =
    set_bufs-replaced always always_lem 2 (req 5) old_heap ((9 ∷ []) ∷ []) (1 ∷ []) tt
      (Filled.link refl refl Filled.end) (tt, tt) old-Source (omega arith) (omega arith)

abbrev ctx : Ctx
ctx = record { self = 4; method = 6; task = none }

abbrev pub conf : Conf
conf = record { proc_queue = true; notify = some 2 }

-- Its body is the two buffers.
abbrev pub request : Request
request = record {
  uri = 47 ∷ [];
  ctx = some ctx;
  request_body = some (some (at (pool 0)));
  content_length_n = pos 3;
  headers = [];
  out_status = 0;
  reactions = [];
}

http_handler-Answered_example :
    (out : Status × Request × Heap) × (http_handler always
        (some 6)
        true
        (some conf)
        (record request { ctx = none })
        small_heap
      ≡ done out)
    × Answered always (some 6) (some conf) (record request { ctx = none }) small_heap out
http_handler-Answered_example =
    http_handler-Answered always (some 6) (some conf) (record request { ctx = none }) small_heap

post-handed_example :
    (m' : Memory) × (post_async_handler ngx_queue always 2 ok ok conf request offering
      ≡ done (record request { ctx = some (record ctx { task = some 5 }) }, m'))
    × Represents m'.links (enqueue 1 5 (with_idle [] one_offered))
    × Holds m'.heap (some (req 5)) ((2 ∷ 3 ∷ []) ∷ (9 ∷ []) ∷ [])
    × (m'.task 5 ≡ record (filled conf ctx request) { proc_notify = some 1 })
post-handed_example =
    post-handed ngx_queue always always_lem 2 ok ok conf ctx (at (pool 0)) request offering
      one_offered 1 [] ((9 ∷ []) ∷ []) refl refl refl body-Source (omega arith) (λ _. tt)
      offering-Represents refl

post-busy_example :
    (r' : Request) × (m' : Memory) × (post_async_handler ngx_queue always 2 ok ok conf request quiet
      ≡ done (r', m'))
    × Represents m'.links nothing
    × (r'.reactions ≡ send_header 500 (some (pos 0)) ∷ destroy_task 5 ∷ finalize ok ∷ [])
post-busy_example =
    post-busy ngx_queue always always_lem 2 ok ok conf ctx (at (pool 0)) request quiet nothing
      ((9 ∷ []) ∷ []) refl refl refl body-Source (omega arith) (λ _. tt) circles-Represents refl

-- Task 5 was forwarded by the process of notify 1.
abbrev forwarded : Memory
forwarded = record quiet { task = λ _. record zeroed { proc_notify = some 1 } }

subrequest_done-failed_example :
    (m' : Memory) × (subrequest_done always 2 5 error 502 (some (at (pool 0))) forwarded
      ≡ done (ok, m'))
    × Represents m'.links (enqueue 1 5 nothing)
    × ((m'.task 5).response_states ≡ 502)
    × (m'.heap ≡ small_heap)
subrequest_done-failed_example =
    subrequest_done-failed always 2 5 1 (some (at (pool 0))) forwarded nothing error 502 (λ e. cc)
      (λ e. omega (arith, e)) refl refl (λ _. tt) circles-Represents

-- The same task with an old request chain of two buffers.
abbrev forwarded_full : Memory
forwarded_full = record forwarded { heap = old_heap }

subrequest_done-replaced_example :
    (m' : Memory) × (subrequest_done always 2 5 ok 200 (some (at (pool 0))) forwarded_full
      ≡ done (ok, m'))
    × Represents m'.links (enqueue 1 5 nothing)
    × (m'.task 5 ≡ record (forwarded.task 5) { response_states = 200 })
    × Holds m'.heap (some (req 5)) ((2 ∷ 3 ∷ []) ∷ (9 ∷ []) ∷ [])
    × Source m'.heap (some (at (pool 0))) ((2 ∷ 3 ∷ []) ∷ (9 ∷ []) ∷ [])
subrequest_done-replaced_example =
    subrequest_done-replaced always 2 5 1 (some (at (pool 0))) forwarded_full nothing ok
      ((9 ∷ []) ∷ []) (1 ∷ []) always_lem (λ e. cc) (Filled.link refl refl Filled.end) (tt, tt)
      (omega arith) old-Source (omega arith) refl refl (λ _. tt) circles-Represents

-- Task 5, whose request chain is one buffer in shared memory.
abbrev full_chain : Spot → Chain
full_chain (req t) = record { buf = some (slab 6); next = none }
full_chain _ = no_chain

abbrev full_heap : Heap
full_heap = record small_heap { chain = full_chain }

destroy-freed_example :
    destroy 2 5 full_heap ≡ done (record full_heap { freed = bytes (pool 1) 0 ∷ whole_task 5 ∷ [] })
destroy-freed_example =
    destroy-freed 2 5 full_heap (bytes (pool 1) 0 ∷ []) [] (Starts.link refl Starts.end)
      (Starts.gap refl) (omega arith) (omega arith)

-- Every key in use matches.
abbrev pub header : (hash : ℕ) → Header
header hash = record { hash = hash; key = 67 ∷ []; value = []; value_len = 0 }

modify_content_length-replace_first_example :
    Gives
      (replace_first (λ a b n. true) (51 ∷ []) true true (header 0 ∷ header 1 ∷ header 2 ∷ []))
      (modify_content_length
        (λ a b n. true)
        (51 ∷ [])
        true
        true
        ((header 0 ∷ []) ∷ (header 1 ∷ header 2 ∷ []) ∷ []))
modify_content_length-replace_first_example =
    modify_content_length-replace_first (λ a b n. true) (51 ∷ []) (header 0 ∷ [])
      ((header 1 ∷ header 2 ∷ []) ∷ []) ((λ e. cc), tt)

abbrev pub proc_conf : Process.Conf
proc_conf = record {
  shpool = some 0;
  queue = some (record { self = 4; slot_array = some 5; notify_slot = some 1 ∷ some 2 ∷ [] });
  notify = some 1;
  shm_size = 8;
}

request-replied_example :
    (r1 : Request) × (r2 : Request) × (m1 : Memory) × (m2 : Memory) × (m3 : Memory)
    × (post_async_handler ngx_queue always 2 ok ok conf request offering ≡ done (r1, m1))
    × (r1.reactions ≡ [])
    × Holds m1.heap (some (req 5)) ((2 ∷ 3 ∷ []) ∷ (9 ∷ []) ∷ [])
    × (process_one_cycle ngx_queue (answering (serve (7 ∷ 8 ∷ [])) 200) 2 proc_conf m1
        ≡ done (5 ∷ [], m2))
    × (stream_out always 3 (7 ∷ 8 ∷ []) 5 m1.heap ≡ done (m3.heap, 2))
    × (process_notify_task ngx_queue finishing 2 conf m2 ≡ done (5 ∷ [], m3))
    × Holds m3.heap (some (res 5)) ((7 ∷ 8 ∷ []) ∷ [])
    × ((m3.task 5).finish.p1 ≡ 4)
    × (resumed ok ok 5 m3 r1 ≡ done r2)
    × (r2.reactions ≡ replies 200 2 5 ok)
request-replied_example =
    request-replied ngx_queue always always_lem (7 ∷ 8 ∷ []) 2 200 ok ok conf proc_conf
      (record { self = 4; slot_array = some 5; notify_slot = some 1 ∷ some 2 ∷ [] }) ctx
      (at (pool 0)) request offering one_offered 1 2 [] ((9 ∷ []) ∷ []) (omega arith) (omega arith)
      refl refl refl body-Source (omega arith) (λ _. tt) offering-Represents refl tt refl refl refl
      (λ e. omega (arith, e)) refl refl refl

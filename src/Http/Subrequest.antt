-- ===== src/Http/Subrequest.antt =====
-- ngx_rpc_module/ngx_http_rpc.c: a task that is forwarded as a subrequest, and the end of one.
use nginx_rpc.Common.{zero, suc, [], ◌∷◌, ℕ, Bool, Option, some, List, if◌then◌else◌, ◌==◌}
use nginx_rpc.Common.Int.{ℤ}
use nginx_rpc.Ring.{task}
use nginx_rpc.Heap.{Spot, req}
use nginx_rpc.Memory.{Status, ok, again, Outcome, done, fault, ◌>>=◌, deref, Memory, set_task}
use nginx_rpc.Notify.{push_task}
use nginx_rpc.Task.{set_bufs}
use nginx_rpc.Http.Headers.{modify_content_length}
use nginx_rpc.Http.{subrequest, run_posted, Request, react}

-- The part of ngx_http_rpc_subrequest_done_handler for a subrequest that is over, with status
-- `status` and result chain `bufs`.
unfoldable pub subrequest_over :
    (granted : ℕ → Bool) (fuel t : ℕ) (status : ℕ) (bufs : Option Spot)
    → Memory
    → Outcome (Status × Memory)
subrequest_over granted fuel t status bufs m = do
  let m1 = set_task t (record (m.task t) { response_states = status }) m
  h ← if status == 200 then set_bufs granted fuel (req t) bufs m1.heap else done m1.heap
  n ← deref (m1.task t).proc_notify
  done (ok, (push_task n (task t) (record m1 { heap = h })).1)

-- ngx_http_rpc_subrequest_done_handler
unfoldable pub subrequest_done :
    (granted : ℕ → Bool) (fuel t : ℕ) (rc : Status) (status : ℕ) (bufs : Option Spot)
    → Memory
    → Outcome (Status × Memory)
unfolding subrequest_over
subrequest_done granted fuel t again status bufs m = done (ok, m)
subrequest_done granted fuel t _ status bufs m = subrequest_over granted fuel t status bufs m

-- The C string in a buffer: its bytes up to the first zero.
abbrev pub c_string : List ℕ → List ℕ
c_string [] = []
c_string (zero ∷ bs) = []
c_string (suc b ∷ bs) = suc b ∷ c_string bs

-- ngx_http_rpc_request_foward. `psr` is what ngx_palloc returns for the post-subrequest record,
-- whose data is the task; `print` is how snprintf writes the content length, `buffer` and `linked`
-- are as in `Headers`.
unfoldable pub request_forward :
    (same : List ℕ → List ℕ → ℕ → Bool) (print : ℤ → List ℕ) (buffer linked psr : Bool) (t : ℕ)
    → Memory
    → Request
    → Outcome Request
request_forward same print buffer linked psr t m r =
    if psr
    then (do
      body ← deref r.request_body
      let r1 = record r { request_body = some (some (req t)) }
      let length = (m.task t).res_length
      (status, headers) ← modify_content_length same (print length) buffer linked r1.headers
      let r2 = record r1 { content_length_n = length; headers = headers }
      done (react run_posted (react (subrequest (c_string (m.task t).path) t) r2)))
    else fault

-- ===== src/Http/Forward.antt =====
-- What ngx_http_rpc_request_foward makes of a request.
use nginx_rpc.Common.{ℕ, ◌≡◌, refl, Bool, true, Option, some, List, [], ◌∷◌, ◌++◌, append_assoc}
use nginx_rpc.Common.Int.{ℤ}
use nginx_rpc.Heap.{Spot, req}
use nginx_rpc.Memory.{Status, done, Memory}
use nginx_rpc.Http.{Request, subrequest, run_posted}
use nginx_rpc.Http.Headers.{Header, modify_content_length}
use nginx_rpc.Http.Subrequest.{request_forward, c_string}

-- A request with a body, where the content length can be rewritten, starts a subrequest to the path
-- of the task; its body is now the task's request chain.
pub request_forward-sent :
    (same : List ℕ → List ℕ → ℕ → Bool) (print : ℤ → List ℕ) (buffer linked : Bool) (t : ℕ)
    (m : Memory) (r : Request) (body : Option Spot) (status : Status) (headers : List (List Header))
    (path : List ℕ) (size : ℤ)
    → r.request_body ≡ some body
    → (m.task t).res_length ≡ size
    → (m.task t).path ≡ path
    → modify_content_length same (print size) buffer linked r.headers ≡ done (status, headers)
    → (r' : Request) × (request_forward same print buffer linked true t m r ≡ done r')
      × (r'.request_body ≡ some (some (req t)))
      × (r'.content_length_n ≡ size)
      × (r'.headers ≡ headers)
      × (r'.reactions ≡ r.reactions ++ subrequest (c_string path) t ∷ run_posted ∷ [])
unfolding request_forward
request_forward-sent same print buffer linked t m r body status headers path size eb el ep eh =
    let r' : Request = record r {
      request_body = some (some (req t));
      content_length_n = size;
      headers = headers;
      reactions = (r.reactions ++ (subrequest (c_string path) t ∷ [])) ++ (run_posted ∷ []);
    } in
    (
      r',
      rw (eb, el, ep, eh) refl,
      refl,
      refl,
      refl,
      append_assoc r.reactions (subrequest (c_string path) t ∷ []) (run_posted ∷ []),
    )

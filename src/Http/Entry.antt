-- ===== src/Http/Entry.antt =====
-- What ngx_http_rpc_http_handler makes of a request.
use nginx_rpc.Common.{
  ℕ, suc, ◌≡◌, inl, inr, refl, ap, ◌∙◌, Bool, true, false, Option, none, some, Bool-cases,
  Option-cases,
}
use nginx_rpc.Heap.{Heap, alloc}
use nginx_rpc.Memory.{Status, again, declined, http, done}
use nginx_rpc.Http.{Ctx, Conf, Request, read_body, destroy_ctx, react, with_method, http_handler}

-- The configuration is there and has a queue.
abbrev pub can_serve : Option Conf → Bool
can_serve none = false
can_serve (some conf) = conf.proc_queue

-- The outcomes of the handler, each with the only case in which it occurs: without a queue 500, for
-- a path without a method declined; with a context of the request's own, or with a new one, which is
-- the allocation `h.allocs` and is destroyed with the request, it waits for the body; and 500 if the
-- new context is not granted. A request that is turned down is as it was.
pub data Answered (granted : ℕ → Bool) (found : Option ℕ) (conf : Option Conf) (r : Request)
    (h : Heap) : Status × Request × Heap → Type 0 where
  no_queue : can_serve conf ≡ false → Answered granted found conf r h (http 500, r, h)
  no_method :
      can_serve conf ≡ true → found ≡ none → Answered granted found conf r h (declined, r, h)
  own_context :
      (method : ℕ) (x : Ctx)
      → can_serve conf ≡ true
      → found ≡ some method
      → r.ctx ≡ some x
      → Answered granted found conf r h (again, react read_body r, h)
  no_memory :
      (method : ℕ)
      → can_serve conf ≡ true
      → found ≡ some method
      → r.ctx ≡ none
      → granted h.allocs ≡ false
      → Answered granted found conf r h (http 500, r, record h { allocs = suc h.allocs })
  new_context :
      (method : ℕ)
      → can_serve conf ≡ true
      → found ≡ some method
      → r.ctx ≡ none
      → granted h.allocs ≡ true
      → Answered granted found conf r h (
        again,
        react read_body (
            react
              (destroy_ctx h.allocs)
              (record r { ctx = some (record { self = h.allocs; method = method; task = none }) })),
        record h { allocs = suc h.allocs },
      )

with_method-Answered :
    (granted : ℕ → Bool) (found : Option ℕ) (conf : Option Conf) (r : Request) (h : Heap)
    → can_serve conf ≡ true
    → (out : Status × Request × Heap) × (with_method granted true found r.ctx r h ≡ done out)
      × Answered granted found conf r h out
unfolding with_method alloc
with_method-Answered granted none conf r h is = ((declined, r, h), refl, no_method is refl)
with_method-Answered granted (some k) conf r h is = elim (Option-cases r.ctx) [
  | inr (x, e) ↦ (_, rw e refl, own_context k x is refl e)
  | inl e ↦ elim (Bool-cases (granted h.allocs)) [
    | inl given ↦ (
      _,
      ap (λ x. with_method granted true (some k) x r h) e ∙ rw given refl,
      new_context k is refl e given,
    )
    | inr refused ↦ (
      _,
      ap (λ x. with_method granted true (some k) x r h) e ∙ rw refused refl,
      no_memory k is refl e refused,
    )
  ]
]

-- When ngx_pool_cleanup_add succeeds, ngx_http_rpc_http_handler returns, and which of five outcomes
-- it has is decided so: 500 without a configuration or a queue; declined if there is a queue but no
-- method for the path; if there are both, it waits for the body with the request's own context if
-- it has one, else with a new one for the method that was found, which is destroyed with the
-- request, if the allocation is granted, and 500 if it is not. A request that is turned down is
-- unchanged.
pub http_handler-Answered :
    (granted : ℕ → Bool) (found : Option ℕ) (conf : Option Conf) (r : Request) (h : Heap)
    → (out : Status × Request × Heap) × (http_handler granted found true conf r h ≡ done out)
      × Answered granted found conf r h out
unfolding http_handler
http_handler-Answered granted found none r h = (_, refl, no_queue refl)
http_handler-Answered granted found (some conf) r h = elim (Bool-cases conf.proc_queue) [
  | inl is ↦
      (let (out, run, ok) = with_method-Answered granted found (some conf) r h is in
        (out, rw (is, run), ok))
  | inr isnt ↦ (_, rw isnt refl, no_queue isnt)
]

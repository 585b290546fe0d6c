-- ===== src/Task/Release.antt =====
-- What ngx_http_rpc_task_destory frees.
use nginx_rpc.Common.{
  ℕ, zero, suc, ◌<◌, ◌≡◌, ap, Option, none, some, List, [], ◌∷◌, ◌++◌, length, append-nil,
  append_assoc, arith,
}
use nginx_rpc.Heap.{Place, Spot, req, res, Buf, Chain, Heap, Freed, bytes, whole_task, slab_free}
use nginx_rpc.Memory.{done}
use nginx_rpc.Task.{free_blocks, destroy}

-- The chain has buffers up to its end, or to an element without one; `starts` are what their
-- `start` pointers are.
pub data Starts (chain : Spot → Chain) (buf : Place → Buf) : Option Spot → List Freed → Type 0 where
  end : Starts chain buf none []
  gap : {s : Spot} → (chain s).buf ≡ none → Starts chain buf (some s) []
  link :
      {s : Spot} {b : Place} {starts : List Freed}
      → (chain s).buf ≡ some b
      → Starts chain buf (chain s).next starts
      → Starts chain buf (some s) (bytes (buf b).block (buf b).start ∷ starts)

abbrev freeing : List Freed → Heap → Heap
freeing fs h = record h { freed = h.freed ++ fs }

free_blocks-freed :
    (fuel : ℕ) (h : Heap) {src : Option Spot} {starts : List Freed}
    → Starts h.chain h.buf src starts
    → length starts < fuel
    → free_blocks fuel src h ≡ done (freeing starts h)
unfolding free_blocks
free_blocks-freed zero h c enough = absurd (omega arith)
free_blocks-freed (suc fuel) h end enough = rw (append-nil h.freed)
free_blocks-freed (suc fuel) h (gap e) enough = rw (e, append-nil h.freed)
free_blocks-freed (suc fuel) h (link {b} {starts} e rest) enough =
    rw
      (
        e,
        free_blocks-freed fuel (slab_free (bytes (h.buf b).block (h.buf b).start) h) rest
            (omega arith),
      )
      (ap (λ fs. done (record h { freed = fs }))
        (append_assoc h.freed (bytes (h.buf b).block (h.buf b).start ∷ []) starts))

-- ngx_http_rpc_task_destory frees the block of each buffer of the request chain, then of the
-- response chain, then the task, each once, and nothing else: neither the buffer structs nor the
-- allocated chain elements.
pub destroy-freed :
    (fuel t : ℕ) (h : Heap) (reqs ress : List Freed)
    → Starts h.chain h.buf (some (req t)) reqs
    → Starts h.chain h.buf (some (res t)) ress
    → length reqs < fuel
    → length ress < fuel
    → destroy fuel t h ≡ done (freeing (reqs ++ ress ++ whole_task t ∷ []) h)
unfolding destroy
destroy-freed fuel t h reqs ress cq cs eq es =
    rw (free_blocks-freed fuel h cq eq, free_blocks-freed fuel (freeing reqs h) cs es)
      (ap (λ fs. done (record h { freed = fs })) (simp append_assoc))

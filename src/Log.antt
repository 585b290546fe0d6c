-- ===== src/Log.antt =====
-- ngx_rpc_module/ngx_log_cpp.cpp: the log that the C++ code is given. What is logged is output and not
-- modelled. A log is known by its address.
use nginx_rpc.Common.{ℕ, ◌≡◌, refl, Bool, true, Option, none, some}

-- `cache_ngx_log`, and whether protobuf's log handler has been set to LogHandler.
pub record LogState : Type 0 where
  pub cache_ngx_log : Option ℕ
  pub handler_set : Bool

-- set_cache_log: it gives back the log before.
unfoldable pub set_cache_log : (cache_log : Option ℕ) → LogState → Option ℕ × LogState
set_cache_log cache_log s =
    (s.cache_ngx_log, record { cache_ngx_log = cache_log; handler_set = true })

-- get_cache_log: `cycle_log` is the log of ngx_cycle.
unfoldable pub get_cache_log : (cycle_log : ℕ) → LogState → ℕ
get_cache_log cycle_log s = or_else s.cache_ngx_log
  where
    or_else : Option ℕ → ℕ
    or_else none = cycle_log
    or_else (some l) = l

-- Setting a log and then the one that this gave back restores what get_cache_log gives.
pub set_cache_log-restored :
    (cycle_log : ℕ) (log : Option ℕ) (s : LogState)
    → let (before, s1) = set_cache_log log s in
      get_cache_log cycle_log (set_cache_log before s1).1 ≡ get_cache_log cycle_log s
unfolding set_cache_log get_cache_log
set_cache_log-restored cycle_log log s = refl

-- ===== src/Tests/Setups.antt =====
-- The theorems on start, registration and configuration at concrete values.
use nginx_rpc.Common.{◌≡◌, refl, true, false, none, some, [], ◌∷◌, arith}
use nginx_rpc.Common.Int.{pos}
use nginx_rpc.Memory.{default_handler, notify_read, notify_write, done, fault, add_conn, Memory}
use nginx_rpc.Notify.{register}
use nginx_rpc.Notify.Register.{Bound, register-Bound, register-past_end}
use nginx_rpc.RpcQueue.{RpcQueue}
use nginx_rpc.Process
use nginx_rpc.Process.{Setup, process_init, notify_num, add_counts}
use nginx_rpc.Common.{subst}
use nginx_rpc.Common.Int.{negsuc}
use nginx_rpc.Memory.{emit, del_write}
use nginx_rpc.Notify.{Handler, read_handler}
use nginx_rpc.Notify.Wake.{Reads, Runs, read_handler-repeat}
use nginx_rpc.Tests.Values.{quiet, quiet_notify}

abbrev queue_object : RpcQueue
queue_object = record { self = 4; slot_array = some 5; notify_slot = some 1 ∷ some 2 ∷ [] }

abbrev proc_conf : Process.Conf
proc_conf = record { shpool = some 0; queue = some queue_object; notify = none; shm_size = 8 }

register-Bound_example :
    (m' : Memory) × (register (pos 1) (pos 2) (some 9) false (some 1 ∷ some 2 ∷ []) 30 quiet
      ≡ done (none, m'))
    × Bound m' 2 9 30
    × (m'.effects ≡ add_conn 9 ∷ [])
    × (m'.links ≡ quiet.links)
    × ((m'.notify 2).event_fd ≡ pos 7)
register-Bound_example =
    register-Bound 1 2 9 false (some 1 ∷ some 2 ∷ []) 30 2 quiet (omega arith) refl

register-past_end_example :
    register (pos 2) (pos 2) (some 9) true (some 1 ∷ some 2 ∷ []) 30 quiet ≡ fault
register-past_end_example = register-past_end 2 (some 9) true (some 1 ∷ some 2 ∷ []) 30 quiet refl

-- Notify 2 is bound to connection 9.
abbrev bound : Memory
bound = record quiet {
  notify = λ _. record quiet_notify {
    ctx = 30;
    notify_conn = some 9;
    read_handler = default_handler;
    write_handler = default_handler;
  };
  connection =
      λ _. record { sockaddr = some 2; read_handler = notify_read; write_handler = notify_write };
}

-- A handler that can be counted, and keeps the notifies.
abbrev counting : Handler
counting callback ctx m = done (emit (del_write ctx) m)

counting-keeps :
    (m m' : Memory)
    → Runs 2 default_handler 30 m
    → counting default_handler 30 m ≡ done m'
    → Runs 2 default_handler 30 m'
counting-keeps m m' r e = subst (λ x. Runs 2 default_handler 30 x) (done-injective e) kept
  where
    done-injective : {a b : Memory} → done a ≡ done b → a ≡ b
    done-injective e = cc

    kept : Runs 2 default_handler 30 (emit (del_write 30) m)
    kept = record { handler = r.handler; argument = r.argument }

-- One successful read and one that fails: two runs.
read_handler-repeat_example :
    read_handler counting 9 (pos 8 ∷ negsuc 10 ∷ []) bound
    ≡ done (record bound { effects = del_write 30 ∷ del_write 30 ∷ [] })
read_handler-repeat_example =
    read_handler-repeat counting 2 default_handler 30 counting-keeps 9 bound refl
      (Reads.succeeds refl (Reads.fails refl)) (record { handler = refl; argument = refl })

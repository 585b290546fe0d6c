-- ===== src/Tests/Starts.antt =====
-- A start: two workers and a pool of one process, whose slot is the third.
use nginx_rpc.Common.{◌+◌, ◌^◌, ◌≡◌, ◌++◌, true, none, some, [], ◌∷◌, arith}
use nginx_rpc.Common.Int.{pos}
use nginx_rpc.Memory.{one_cycle, signal, ok, done, Closure, Memory}
use nginx_rpc.Drain.{Body}
use nginx_rpc.RpcQueue.{push_and_notify}
use nginx_rpc.RpcQueue.View.{Represents, enqueue}
use nginx_rpc.RpcQueue.Ready.{granting}
use nginx_rpc.RpcQueue.Life.{started}
use nginx_rpc.Process
use nginx_rpc.Process.{Setup, QueueAnswers, init_zone, master_init, process_init, process_one_cycle}
use nginx_rpc.Process.Zones.{HasZone, configured}
use nginx_rpc.Start.{Serves}
use nginx_rpc.Start.FirstTask.{startup-handed}
use nginx_rpc.Tests.Values.{ngx_queue, quiet}

abbrev no_closure : Closure → Body
no_closure c t m = done m

abbrev three_notifies : QueueAnswers
three_notifies = record {
  fresh = some 4;
  lock = true;
  slots = some 5;
  notifies = granting (λ i. 10 + i) (λ i. pos (20 + i));
}

startup-handed_example :
    (z : Setup) × (c0 : Process.Conf) × (c1 : Process.Conf) × (c2 : Process.Conf) × (m1 : Memory)
    × (m2 : Memory) × (m3 : Memory) × (m4 : Memory) × (configured none 4096 ≡ done (ok, z))
    × HasZone (2 ^ 30) z
    × (init_zone 3 none z.conf ≡ (ok, c0))
    × (master_init ngx_queue (pos 2) 8 (1 ∷ []) three_notifies (some c0) quiet
        ≡ done (ok, some c1, m1))
    × Represents m1.links (started (λ i. 10 + i) 3)
    × (process_init (pos 2) (pos 2) (some 9) true 30 (some c1) m1 ≡ done (ok, some c2, m2))
    × Serves m2 12 9 30 one_cycle
    × (process_one_cycle ngx_queue no_closure 1 c2 m2 ≡ done ([], m3))
    × (push_and_notify ngx_queue 6 m3 ≡ done (ok, m4))
    × Represents m4.links (enqueue 12 6 (started (λ i. 10 + i) 3))
    × ((m4.task 6).proc_notify ≡ some 12)
    × (m4.effects ≡ m3.effects ++ signal (pos 22) ∷ [])
unfolding Process.notify_num
startup-handed_example =
    startup-handed ngx_queue no_closure 0 none 4096 3 8 4 5 2 2 9 30 6 (pos 2) (1 ∷ [])
      (λ i. 10 + i) (λ i. pos (20 + i)) quiet tt (λ i j e. omega (arith, e)) (omega arith)
      (omega arith)

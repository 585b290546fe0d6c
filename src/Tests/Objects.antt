-- ===== src/Tests/Objects.antt =====
-- The C++ objects of requests to the built-in service.
use nginx_rpc.Common.{ℕ, ◌≡◌, ◌≢◌, refl, true, false, none, []}
use nginx_rpc.Heap.{pool}
use nginx_rpc.Memory.{done}
use nginx_rpc.Channel.Objects.{Objects, World, RpcChannel, no_handler, foward_done}
use nginx_rpc.Generator.Names.{codes}
use nginx_rpc.Inspect
use nginx_rpc.Inspect.{application_interface, application_requeststatus}
use nginx_rpc.Inspect.Objects.{application, interface, requeststatus}
use nginx_rpc.Inspect.Objects.Interface.{Kept, Untouched, interface-leaves_two}
use nginx_rpc.Inspect.Objects.Relayed.{requeststatus-leaves_four}
use nginx_rpc.Tests.Services.{with_request, written, parsed, merged}

abbrev blank : RpcChannel
blank = record { r = 0; task = 0; req = none; res = none; pre_cntl = 0; handler = no_handler }

abbrev no_objects : Objects
no_objects = record { fresh = 0; alive = λ _. false; channel = λ _. blank; text = λ _. [] }

abbrev start : World
start = record { memory = with_request; objects = no_objects }

interface-leaves_two_example :
    (w' : World) × (application written (interface written) parsed 7 4 start ≡ done w')
    × (application_interface written parsed 7 4 with_request ≡ done w'.memory)
    × Untouched no_objects w'.objects
    × (w'.objects.alive 0 ≡ false)
    × (w'.objects.alive 1 ≡ true)
    × (w'.objects.alive 2 ≡ true)
    × (w'.objects.fresh ≡ 3)
interface-leaves_two_example = interface-leaves_two written parsed 7 4 start (pool 0) refl

requeststatus-leaves_four_example :
    (w1 : World) × (w3 : World) × (application written (requeststatus written) parsed 7 4 start
      ≡ done w1)
    × (application_requeststatus written parsed 5 7 4 with_request ≡ done w1.memory)
    × Kept no_objects w1.objects
    × (foward_done 2 written merged 4 5 w1 ≡ done w3)
    × (w3.memory ≡ Inspect.foward_done written merged 7 4 w1.memory)
    × (w3.objects.alive 0 ≡ false)
    × (w3.objects.alive 5 ≡ false)
    × (w3.objects.alive 1 ≡ true)
    × (w3.objects.alive 2 ≡ true)
    × (w3.objects.alive 3 ≡ true)
    × (w3.objects.alive 4 ≡ true)
    × ((k : ℕ) → k ≢ 0 → k ≢ 5 → w3.objects.alive k ≡ w1.objects.alive k)
requeststatus-leaves_four_example =
    requeststatus-leaves_four 0 written parsed merged 7 4 (codes "{}") (λ w. w) start refl
      (λ v. record { alive = λ p lt. refl; channel = λ p lt. refl })

-- ===== src/Agent/Redundancy/Tests.antt =====
-- A reader on a node wants the output of a set, and the theorems at that run.
use mxl_k8s.Base.{◌≡◌, ◌⊎◌, refl, false, Option, some, String, List, [], ◌∷◌, arith}
use mxl_k8s.Agent.Redundancy.{
  FlowSet, is_output, want_update, leave_update, used_again, without_node, last_use, record_use,
  sweep, see_used, forget, is_named,
}
use mxl_k8s.Agent.Redundancy.Outputs.{IsTold, is_output-IsTold}
use mxl_k8s.Agent.Redundancy.Run.{
  find_set, write, Want, served, started, holding, State, start_want, read_want, send_want, want,
  read, send, Steps, none_yet, one_more,
}
use mxl_k8s.Agent.Redundancy.Run.Listed.{IsListed}
use mxl_k8s.Agent.Redundancy.Run.Safe.{WasTakenOut, fresh_state, Steps-IsListed}

abbrev camera : FlowSet
camera = record {
  name = "camera";
  domain = "studio";
  flow_id = "f-1";
  nodes = "node-b" ∷ [];
  version = 7;
}

abbrev start : State
start = fresh_state (camera ∷ []) 100

abbrev wanted : State
wanted = start_want "camera" start

abbrev call : Want
call = record { name = "camera"; since = 100; stage = started }

abbrev holding_call : Want
holding_call = record { name = "camera"; since = 100; stage = holding camera }

abbrev reading : State
reading = read_want "node-a" 0 call camera wanted

abbrev sent : State
sent = send_want "node-a" 0 holding_call camera camera reading

call-sent : Steps "node-a" 60 start sent
unfolding start_want read_want send_want find_set want_update write
call-sent =
    one_more start reading sent
      (one_more start wanted reading
        (one_more start start wanted (none_yet start) (want start "camera"))
        (read wanted 0 call camera refl refl refl))
      (send reading 0 holding_call camera camera refl refl refl)

served_call : Want
served_call = record { name = "camera"; since = 100; stage = served }

sent-nodes :
    sent.store
    ≡ record {
      name = "camera";
      domain = "studio";
      flow_id = "f-1";
      nodes = "node-b" ∷ "node-a" ∷ [];
      version = 8;
    }
      ∷ []
unfolding start_want read_want send_want want_update write
sent-nodes = refl

Steps-IsListed_example :
    IsListed "node-a" "camera" sent.store
    ⊎ WasTakenOut "node-a" 60 "camera" 100 start sent call-sent
unfolding start_want read_want send_want want_update
Steps-IsListed_example =
    Steps-IsListed "node-a" 60 (camera ∷ []) 100 sent 0
      (record { name = "camera"; since = 100; stage = served }) call-sent refl refl (omega arith)

is_output-IsTold_example :
    IsTold "studio" "f-1" (some (camera ∷ [])) (is_output "studio" "f-1" (some (camera ∷ [])))
is_output-IsTold_example = is_output-IsTold "studio" "f-1" (some (camera ∷ []))

-- The grace is over, and no process uses the output: the set is found idle, and the node leaves it.
left : Option FlowSet
left = leave_update "node-b" 160 60 (("camera", 100) ∷ []) camera

left-camera : left ≡ some (record camera { nodes = [] })
unfolding left leave_update used_again last_use without_node
left-camera = refl

idle : List String
idle = (sweep (λ domain id. false) 160 60 (camera ∷ []) (("camera", 100) ∷ ("gone", 90) ∷ [])).1

idle-camera : idle ≡ "camera" ∷ []
unfolding idle sweep see_used forget is_named last_use record_use
idle-camera = refl

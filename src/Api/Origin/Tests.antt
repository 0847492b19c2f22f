-- ===== src/Api/Origin/Tests.antt =====
-- A flow that two nodes claim after one that holds a copy.
use mxl_k8s.Base.{true, false, some, String, [], ◌∷◌, ◌≡◌, refl}
use mxl_k8s.Api.Origin.{
  origin, ready, Flow, Answer, answered, resolved, resolve_from, resolve_origin,
}
use mxl_k8s.Api.Origin.Agrees.{IsRight, resolve_origin-IsRight}

abbrev claimed : Flow
claimed = record {
  name = "f";
  locations =
      record { node_name = "copy"; phase = ready }
      ∷ record { node_name = "live"; phase = origin }
      ∷ record { node_name = "next"; phase = origin }
      ∷ [];
}

abbrev lease : String → String → Answer
lease flow node = answered true 30

claimed_live :
    resolve_origin (some claimed) (some lease)
    ≡ resolved record { node = "live"; found = true; all_stale = false; deadline = 30 }
unfolding resolve_origin resolve_from
claimed_live = refl

resolve_origin-IsRight_example :
    IsRight "f" lease claimed.locations false (resolve_origin (some claimed) (some lease))
resolve_origin-IsRight_example = resolve_origin-IsRight claimed lease

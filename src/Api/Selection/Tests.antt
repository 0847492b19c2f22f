-- ===== src/Api/Selection/Tests.antt =====
-- Two nodes: one with verbs and tcp, one that reports a probe and has no device for verbs.
use mxl_k8s.Base.{true, false, ◌≡◌, refl, [], ◌∷◌, ◌&&◌}
use mxl_k8s.Base.Int.{pos}
use mxl_k8s.Base.Texts.{contains_text}
use mxl_k8s.Api.Selection.{provider_tcp, cross_node_preference, Status, fine, resolve, supported}
use mxl_k8s.Api.Selection.Agrees.{shared, IsResolved, resolve-IsResolved, supported-resolve}

abbrev listed : Status
listed = record {
  probed = false;
  providers =
      record { name = "verbs"; device_count = pos 0 }
      ∷ record { name = "tcp"; device_count = pos 0 }
      ∷ [];
}

abbrev probed : Status
probed = record {
  probed = true;
  providers =
      record { name = "verbs"; device_count = pos 0 }
      ∷ record { name = "shm"; device_count = pos 1 }
      ∷ record { name = "tcp"; device_count = pos 2 }
      ∷ [];
}

resolve_tcp : resolve listed probed ≡ (provider_tcp, fine)
unfolding resolve
resolve_tcp = refl

resolve-IsResolved_example : IsResolved listed probed (resolve listed probed)
resolve-IsResolved_example = resolve-IsResolved listed probed

supported-resolve_example :
    (supported listed probed "tcp"
      ≡ (contains_text cross_node_preference "tcp" && shared listed probed "tcp"))
    × (resolve listed probed ≡ ("tcp", fine) → supported listed probed "tcp" ≡ true)
supported-resolve_example = supported-resolve listed probed "tcp"

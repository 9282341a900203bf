-- ===== src/SharedIsolation/Tests.antt =====
-- The isolation of one shared project, and of projects that are refused.
use gpu_rental_platform.Common.{◌≡◌, refl, err, failure}
use gpu_rental_platform.Common.Int.{pos, negsuc}
use gpu_rental_platform.Common.Text.{is_blank}
use gpu_rental_platform.Tenancy.{Project, IsolationClass}
use gpu_rental_platform.Workspace.Manifest.{WorkRequest}
use gpu_rental_platform.SharedIsolation.{IsolationInput, isolation_work, build_isolation}

abbrev project : Project
project = record {
  id = "aaaaaaaa-0000-4000-8000-000000000001";
  tenant_id = "bbbbbbbb-0000-4000-8000-000000000002";
  name = "Vision";
  slug = "vision";
  isolation_class = IsolationClass.shared;
  namespace_name = "gpu-p-aaaaaaaa0000";
  desired_state = "active";
  observed_state = "pending";
  provisioning_state = "pending";
  generation = 1;
  created_at = 0;
  updated_at = 0;
}

abbrev input : IsolationInput
input = record {
  project = project;
  operation_id = "cccccccc-0000-4000-8000-000000000003";
  cluster_id = "berlin-1";
  gpu_quota = pos 8;
  addon_install_namespace = "gpu-platform-addon";
  addon_service_account = "observer";
}

abbrev work : WorkRequest
work = record {
  operation_id = "cccccccc-0000-4000-8000-000000000003";
  cluster_id = "berlin-1";
  work_id = "gpu-project-aaaaaaaa0000";
  manifest = isolation_work input;
}

negative_quota :
    build_isolation (record input { gpu_quota = negsuc 0 })
    ≡ err (failure "GPU quota must be non-negative")
unfolding build_isolation is_blank
negative_quota = refl

dedicated :
    build_isolation (record input {
      project = record project { isolation_class = IsolationClass.dedicated_cluster };
    })
    ≡ err (failure "shared isolation renderer requires a shared project")
unfolding build_isolation is_blank
dedicated = refl

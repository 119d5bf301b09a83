-- ===== src/Examples/Provisions.antt =====
-- Tests of the provisioner of a runner host.
use panopticon_next.Base.{true, false, none, some, List, [], ◌∷◌, ok}
use panopticon_next.Sessionservice.Provisioner.{ProvisionView, GitCall, Checkout}

abbrev handed_over : ProvisionView
handed_over = record {
  id = "t5";
  slug = some "dark-mode";
  branch = some "panopticon/dark-mode";
  provisioned_by = some "host-a";
  provisioned = true;
  claimed_by = some "host-b";
  migration = some (record {
    source_runner = "host-a";
    destination_runner = "host-b";
    workspace_disposition = "accepted";
    session_history_disposition = "accepted";
    workspace_method = "forge-first";
    discarded_changes = [];
    discard_authorized_by = none;
    session_history_changed_by = none;
    session_history_was_requested = true;
  });
}

abbrev clone_ready : Checkout
clone_ready = record {
  is_shell = false;
  workspace_exists = true;
  checkout_fails = false;
  create_fails = false;
  current_branch = ok "panopticon/dark-mode";
  record_fails = false;
}

abbrev done : List GitCall
done =
    GitCall.checkout_remote_branch "/tasks/t5" "panopticon/dark-mode"
    ∷ GitCall.record_provisioning "t5" "panopticon/dark-mode" "/tasks/t5" "host-b" true
    ∷ []

-- ===== src/Domain/Actions.antt =====
-- The action kinds of src/coding_harness/domain/policy.py, their names, and the four sets that
-- decide what becomes of an action.
use ai_coding_agent_harness.Base.{
  String, Bool, true, false, Option, none, some, List, [], ◌∷◌, ◌==◌, text_comparable,
  if◌then◌else◌,
}

pub data PolicyActionKind : Type 0 where
  inspect_repository list_files read_file search_text create_file : PolicyActionKind
  replace_file apply_patch run_validation git_repo_probe git_repo_root : PolicyActionKind
  git_status git_diff_worktree git_diff_index git_list_tracked delete_file : PolicyActionKind
  request_ignored_input network_read remote_git_write git_push : PolicyActionKind
  create_pull_request create_merge_request deploy publish release : PolicyActionKind
  cloud_resource_change production_resource_change : PolicyActionKind
  production_database_write production_credential_injection : PolicyActionKind
  expose_production_secret task_docker_build task_docker_run : PolicyActionKind
  task_docker_control privileged_container host_network host_pid_namespace : PolicyActionKind
  host_device arbitrary_volume docker_socket_access : PolicyActionKind

-- The value of a member.
unfoldable pub value_of : PolicyActionKind → String
value_of inspect_repository = "inspect_repository"
value_of list_files = "list_files"
value_of read_file = "read_file"
value_of search_text = "search_text"
value_of create_file = "create_file"
value_of replace_file = "replace_file"
value_of apply_patch = "apply_patch"
value_of run_validation = "run_validation"
value_of git_repo_probe = "git_repo_probe"
value_of git_repo_root = "git_repo_root"
value_of git_status = "git_status"
value_of git_diff_worktree = "git_diff_worktree"
value_of git_diff_index = "git_diff_index"
value_of git_list_tracked = "git_list_tracked"
value_of delete_file = "delete_file"
value_of request_ignored_input = "request_ignored_input"
value_of network_read = "network_read"
value_of remote_git_write = "remote_git_write"
value_of git_push = "git_push"
value_of create_pull_request = "create_pull_request"
value_of create_merge_request = "create_merge_request"
value_of deploy = "deploy"
value_of publish = "publish"
value_of release = "release"
value_of cloud_resource_change = "cloud_resource_change"
value_of production_resource_change = "production_resource_change"
value_of production_database_write = "production_database_write"
value_of production_credential_injection = "production_credential_injection"
value_of expose_production_secret = "expose_production_secret"
value_of task_docker_build = "task_docker_build"
value_of task_docker_run = "task_docker_run"
value_of task_docker_control = "task_docker_control"
value_of privileged_container = "privileged_container"
value_of host_network = "host_network"
value_of host_pid_namespace = "host_pid_namespace"
value_of host_device = "host_device"
value_of arbitrary_volume = "arbitrary_volume"
value_of docker_socket_access = "docker_socket_access"

-- Every member, in the order of the enumeration.
unfoldable pub action_kinds : List PolicyActionKind
action_kinds =
    inspect_repository ∷ list_files ∷ read_file ∷ search_text ∷ create_file ∷ replace_file
    ∷ apply_patch ∷ run_validation ∷ git_repo_probe ∷ git_repo_root ∷ git_status ∷ git_diff_worktree
    ∷ git_diff_index ∷ git_list_tracked ∷ delete_file ∷ request_ignored_input ∷ network_read
    ∷ remote_git_write ∷ git_push ∷ create_pull_request ∷ create_merge_request ∷ deploy ∷ publish
    ∷ release ∷ cloud_resource_change ∷ production_resource_change ∷ production_database_write
    ∷ production_credential_injection ∷ expose_production_secret ∷ task_docker_build
    ∷ task_docker_run ∷ task_docker_control ∷ privileged_container ∷ host_network
    ∷ host_pid_namespace ∷ host_device ∷ arbitrary_volume ∷ docker_socket_access ∷ []

-- The lookup by value of an enumeration.
unfoldable pub find_kind : String → List PolicyActionKind → Option PolicyActionKind
unfolding value_of
find_kind name [] = none
find_kind name (k ∷ ks) = if value_of k == name then some k else find_kind name ks

-- `PolicyActionKind(name)`, `none` for its `ValueError`.
unfoldable pub action_kind : String → Option PolicyActionKind
unfolding find_kind action_kinds
action_kind name = find_kind name action_kinds

-- `action in _ALLOW_ACTIONS`
unfoldable pub allow_actions : PolicyActionKind → Bool
allow_actions inspect_repository = true
allow_actions list_files = true
allow_actions read_file = true
allow_actions search_text = true
allow_actions create_file = true
allow_actions replace_file = true
allow_actions apply_patch = true
allow_actions run_validation = true
allow_actions git_repo_probe = true
allow_actions git_repo_root = true
allow_actions git_status = true
allow_actions git_diff_worktree = true
allow_actions git_diff_index = true
allow_actions git_list_tracked = true
allow_actions _ = false

-- `action in _APPROVAL_ACTIONS`
unfoldable pub approval_actions : PolicyActionKind → Bool
approval_actions delete_file = true
approval_actions request_ignored_input = true
approval_actions _ = false

-- `action in _UNSUPPORTED_ACTIONS`
unfoldable pub unsupported_actions : PolicyActionKind → Bool
unsupported_actions network_read = true
unsupported_actions _ = false

-- `action in _HARD_DENY_ACTIONS`
unfoldable pub hard_deny_actions : PolicyActionKind → Bool
hard_deny_actions remote_git_write = true
hard_deny_actions git_push = true
hard_deny_actions create_pull_request = true
hard_deny_actions create_merge_request = true
hard_deny_actions deploy = true
hard_deny_actions publish = true
hard_deny_actions release = true
hard_deny_actions cloud_resource_change = true
hard_deny_actions production_resource_change = true
hard_deny_actions production_database_write = true
hard_deny_actions production_credential_injection = true
hard_deny_actions expose_production_secret = true
hard_deny_actions task_docker_build = true
hard_deny_actions task_docker_run = true
hard_deny_actions task_docker_control = true
hard_deny_actions privileged_container = true
hard_deny_actions host_network = true
hard_deny_actions host_pid_namespace = true
hard_deny_actions host_device = true
hard_deny_actions arbitrary_volume = true
hard_deny_actions docker_socket_access = true
hard_deny_actions _ = false

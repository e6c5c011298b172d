-- ===== src/Policy/Tests.antt =====
-- A small platform with `/` paths, one on Windows for paths on two drives, and the theorems there.
use xautojs_devspace.Policy.Commands.{
  CommandInput, allow, ask, command_name, command_risk, decide, decide_workspace_write,
  evaluate_argv, evaluate_command_policy, high_risk_commands, is_node_like, is_outside,
  medium_risk_commands, workspace_write,
}
use xautojs_devspace.Policy.Commands.Laws.{
  IsPermitted, IsRecorded, decide_workspace_write_network, evaluate_command_policy-Runs,
}
use xautojs_devspace.Policy.Roots.{
  Platform, assert_allowed_path, expand_home_path, is_path_inside_root, stays_inside,
}
use xautojs_devspace.Policy.Roots.Laws.{
  IsPosix, assert_allowed_path_lem, is_below, is_dotted, is_path_inside_root_elsewhere, join, ups,
  way,
}
use xautojs_devspace.Prelude.{
  List, [], any, arith, false, if◌then◌else◌, inl, map, refl, some, true, ◌++◌, ◌==◌, ◌∷◌, ◌≡◌, ◌⊎◌,
}
use xautojs_devspace.Prelude.Result.{err, ok}
use xautojs_devspace.Prelude.Text.{
  Text, includes, slice_from, starts_with, text, text_eq, trim, truthy,
}

policies : Unit {0}
unfolding evaluate_command_policy evaluate_argv decide decide_workspace_write command_risk
    command_name is_node_like is_outside is_path_inside_root stays_inside expand_home_path
    high_risk_commands medium_risk_commands any map text text_eq starts_with includes slice_from
    trim
policies = tt

-- `relative` for a root without `/` at its end and a path at or below it; ".." elsewhere.
abbrev posix : Platform
posix = record {
  homedir = text "/home/ann";
  resolve = λ path. path;
  resolve_from = λ base path. base ++ (text "/" ++ path);
  relative = λ root path. if starts_with path root then slice_from 6 path else text "..";
  sep = text "/";
  basename = λ path. path;
  to_lower_case = λ path. path;
  exec_path = text "node";
}

-- `relative` from one drive to another is the target.
abbrev windows : Platform
windows = record posix { relative = λ root path. path; sep = text "\\" }

-- The working directory is `/`, and `.` and `..` are names as others.
absolute_path : Text → Text
unfolding text starts_with
absolute_path p = if starts_with p (text "/") then p else text "/" ++ p

-- The names between slashes; `name` is what stands before.
split_names : Text → Text → List Text
unfolding text
split_names name [] = if truthy name then name ∷ [] else []
split_names name (c ∷ p) =
    let rest = split_names [] p in
    let longer = split_names (name ++ (c ∷ [])) p in if c == 47 then name ∷ rest else longer

abbrev names_of : Text → List Text
names_of p = split_names [] (slice_from 1 (absolute_path p))

abbrev rooted : Platform
rooted = record posix {
  resolve = absolute_path;
  relative = λ root path. join (way (names_of root) (names_of path));
}

absolute_path-absolute : (p : Text) → starts_with (absolute_path p) (text "/") ≡ true
unfolding absolute_path text starts_with
absolute_path-absolute p = ground arith

absolute_path-kept : (p : Text) → starts_with p (text "/") ≡ true → absolute_path p ≡ p
unfolding absolute_path
absolute_path-kept p h = rw h refl

absolute_path-settled : (p : Text) → absolute_path (absolute_path p) ≡ absolute_path p
absolute_path-settled p = absolute_path-kept (absolute_path p) (absolute_path-absolute p)

rooted-IsPosix : IsPosix rooted names_of
rooted-IsPosix = record {
  separator = refl;
  absolute = absolute_path-absolute;
  settled = absolute_path-settled;
  related = λ p q. rw (absolute_path-settled p, absolute_path-settled q) refl;
}

abbrev work : List Text
work = text "/work" ∷ []

assert_allowed_path_example : assert_allowed_path rooted (text "~/a") work ≡ (
    if any
      (λ root.
        is_below
          (names_of (expand_home_path rooted root))
          (names_of (expand_home_path rooted (text "~/a"))))
      work
    then ok (absolute_path (expand_home_path rooted (text "~/a")))
    else err (text "~/a"))
assert_allowed_path_example =
    assert_allowed_path_lem rooted names_of rooted-IsPosix (text "~/a") work

below_allowed : assert_allowed_path rooted (text "/work/a") work ≡ ok (text "/work/a")
unfolding rooted-IsPosix assert_allowed_path absolute_path split_names join way ups is_dotted
    is_below policies
below_allowed = refl

beside_refused : assert_allowed_path rooted (text "/worker") work ≡ err (text "/worker")
unfolding rooted-IsPosix assert_allowed_path absolute_path split_names join way ups is_dotted
    is_below policies
beside_refused = refl

far :
    windows.relative
      (windows.resolve (expand_home_path windows (text "C:\\work")))
      (windows.resolve (expand_home_path windows (text "D:\\secret")))
    ≡ windows.resolve (expand_home_path windows (text "D:\\secret"))
far = refl

plain :
    starts_with (windows.resolve (expand_home_path windows (text "D:\\secret"))) (text "..") ≡ false
unfolding policies
plain = refl

clean :
    includes
      (windows.resolve (expand_home_path windows (text "D:\\secret")))
      (text ".." ++ windows.sep)
    ≡ false
unfolding policies
clean = refl

is_path_inside_root_elsewhere_example :
    is_path_inside_root windows (text "D:\\secret") (text "C:\\work") ≡ true
is_path_inside_root_elsewhere_example =
    is_path_inside_root_elsewhere windows (text "D:\\secret") (text "C:\\work") far plain clean

-- The repository's own `git-style` command, and an internal one with network access.
abbrev git : CommandInput
git = record {
  permission_profile = workspace_write;
  argv = text "git" ∷ text "status" ∷ [];
  cwd = text "/work/a";
  workspace_root = some (text "/work");
  internal = false;
  network = false;
}

abbrev fetch : CommandInput
fetch = record git { argv = text "node" ∷ []; internal = true; network = true }

git_allowed : (evaluate_command_policy posix git).decision ≡ allow
unfolding policies
git_allowed = refl

fetch_allowed : (evaluate_command_policy posix fetch).decision ≡ allow
unfolding policies
fetch_allowed = refl

evaluate_command_policy-Runs_example :
    (program : Text) × (rest : List Text) × (git.argv ≡ program ∷ rest)
    × (truthy (trim program) ≡ true)
    × (is_outside posix git.workspace_root git.cwd ≡ false)
    × IsPermitted posix program git
    × IsRecorded posix program git (evaluate_command_policy posix git).decision
evaluate_command_policy-Runs_example = evaluate_command_policy-Runs posix git (inl git_allowed)

decide_workspace_write_network_example :
    ((fetch.internal ≡ true)
      × (is_node_like posix (text "node") ≡ true)
      × ((decide_workspace_write posix
            (text "node")
            (command_risk (text "node") fetch)
            fetch).decision
          ≡ allow))
    ⊎ (((decide_workspace_write posix
            (text "node")
            (command_risk (text "node") fetch)
            fetch).decision
          ≡ ask)
        × ((decide_workspace_write posix
              (text "node")
              (command_risk (text "node") fetch)
              fetch).approval_title
            ≡ some (text "Approve high-risk native command")))
decide_workspace_write_network_example =
    decide_workspace_write_network posix (text "node") fetch refl

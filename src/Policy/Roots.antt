-- ===== src/Policy/Roots.antt =====
-- src/roots.ts.
pub mod Laws
use xautojs_devspace.Prelude.{Bool, List, [], any, if◌then◌else◌, not, ◌&&◌, ◌++◌, ◌||◌}
use xautojs_devspace.Prelude.Result.{Result, err, ok}
use xautojs_devspace.Prelude.Text.{Text, includes, slice_from, starts_with, text, text_eq}

pub record Platform : Type 0 where
  pub homedir : Text
  pub resolve : Text → Text
  pub resolve_from : Text → Text → Text
  pub relative : Text → Text → Text
  pub sep : Text
  pub basename : Text → Text
  pub to_lower_case : Text → Text
  pub exec_path : Text

module _ (platform : Platform) where
  open platform use {homedir, resolve, resolve_from, relative, sep}

  unfoldable pub expand_home_path : Text → Text
  unfolding text text_eq starts_with slice_from
  expand_home_path path =
      if text_eq path (text "~")
      then homedir
      else if starts_with path (text "~/") || starts_with path (text "~\\")
      then resolve_from homedir (slice_from 2 path)
      else path

  -- `relationship === "" || …`
  unfoldable pub stays_inside : Text → Bool
  unfolding text text_eq starts_with includes
  stays_inside relationship =
      text_eq relationship []
      || not (starts_with relationship (text ".."))
        && not (text_eq relationship (text ".."))
        && not (includes relationship (text ".." ++ sep))

  unfoldable pub is_path_inside_root : Text → Text → Bool
  is_path_inside_root path root =
      let resolved_path : Text = resolve (expand_home_path path) in
      let resolved_root : Text = resolve (expand_home_path root) in
      stays_inside (relative resolved_root resolved_path)

  -- The path that an `AccessDeniedError` names.
  unfoldable pub assert_allowed_path : Text → List Text → Result Text Text
  assert_allowed_path path allowed_roots =
      let resolved_path : Text = resolve (expand_home_path path) in
      if any (is_path_inside_root resolved_path) allowed_roots then ok resolved_path else err path

  unfoldable pub resolve_allowed_path : Text → Text → List Text → Result Text Text
  resolve_allowed_path input_path cwd allowed_roots =
      assert_allowed_path (resolve_from cwd input_path) allowed_roots

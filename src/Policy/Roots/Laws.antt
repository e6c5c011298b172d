-- ===== src/Policy/Roots/Laws.antt =====
-- What the checks of src/roots.ts let through.
use xautojs_devspace.Policy.Roots.{
  Platform, assert_allowed_path, expand_home_path, is_path_inside_root, stays_inside,
}
use xautojs_devspace.Prelude.{
  ==_iff, Bool, Bool-cases, List, [], any, arith, false, if◌then◌else◌, inl, inr, not, refl, true,
  ◌&&◌, ◌++◌, ◌||◌, ◌∷◌, ◌≡◌,
}
use xautojs_devspace.Prelude.Result.{err, ok}
use xautojs_devspace.Prelude.Text.{Text, includes, starts_with, text, text_eq}
use xautojs_devspace.Prelude.Text.Laws.{eq_of_text_eq}

-- The names of a relative path, with `/` between them.
unfoldable pub join : List Text → Text
unfolding text
join [] = []
join (name ∷ []) = name
join (name ∷ next ∷ rest) = name ++ (text "/" ++ join (next ∷ rest))

unfoldable pub ups : List Text → List Text
unfolding text
ups [] = []
ups (_ ∷ names) = text ".." ∷ ups names

-- What leads from one directory to another, as node:path documents `relative`: up from the first to
-- where the two part, and from there down to the second.
unfoldable pub way : List Text → List Text → List Text
unfolding text text_eq ups
way [] to = to
way (x ∷ from) [] = ups (x ∷ from)
way (x ∷ from) (y ∷ to) =
    let deeper = way from to in if text_eq x y then deeper else text ".." ∷ ups from ++ (y ∷ to)

-- Names that are taken for a way up: what they join to begins with ".." or has "../" in it.
unfoldable pub is_dotted : List Text → Bool
unfolding join text text_eq starts_with includes
is_dotted names =
    not (text_eq (join names) [])
    && (starts_with (join names) (text "..") || includes (join names) (text ".." ++ text "/"))

-- The second path is at the first one or below it, by names that are not dotted.
unfoldable pub is_below : List Text → List Text → Bool
unfolding is_dotted text_eq
is_below [] names = not (is_dotted names)
is_below (x ∷ root) [] = false
is_below (x ∷ root) (y ∷ names) = text_eq x y && is_below root names

-- What node:path documents for POSIX, where `names` gives the names on the way to a resolved path:
-- `resolve` answers with an absolute path, which it leaves as it is, and `relative` with the way
-- from one such path to another.
pub record IsPosix (platform : Platform) (names : Text → List Text) : Type 0 where
  pub separator : platform.sep ≡ text "/"
  pub absolute : (p : Text) → starts_with (platform.resolve p) (text "/") ≡ true
  pub settled : (p : Text) → platform.resolve (platform.resolve p) ≡ platform.resolve p
  pub related :
      (p q : Text)
      → platform.relative (platform.resolve p) (platform.resolve q) ≡ join (way (names p) (names q))

starts_with_of_eq : (s : Text) → text_eq s (text "..") ≡ true → starts_with s (text "..") ≡ true
starts_with_of_eq s h = rw (eq_of_text_eq s (text "..") h) (unfold starts_with text in refl)

module _ (platform : Platform) (slash : platform.sep ≡ text "/") where
  stays_inside-names :
      (names : List Text) → stays_inside platform (join names) ≡ not (is_dotted names)
  unfolding stays_inside is_dotted
  stays_inside-names names = rw slash (ground (arith, starts_with_of_eq (join names)))

  stays_inside-up : (names : List Text) → stays_inside platform (join (text ".." ∷ names)) ≡ false
  unfolding stays_inside join text starts_with text_eq
  stays_inside-up [] = refl
  stays_inside-up (name ∷ names) = refl

  stays_inside-way :
      (root names : List Text) → stays_inside platform (join (way root names)) ≡ is_below root names
  unfolding way is_below ups
  stays_inside-way [] names = stays_inside-names names
  stays_inside-way (x ∷ root) [] = stays_inside-up (ups root)
  stays_inside-way (x ∷ root) (y ∷ names) = elim (Bool-cases (text_eq x y)) [
    | inl same ↦ rw same (stays_inside-way root names)
    | inr other ↦ rw other (stays_inside-up (ups root ++ (y ∷ names)))
  ]

any-ext : (p q : Text → Bool) (xs : List Text) → ((x : Text) → p x ≡ q x) → any p xs ≡ any q xs
unfolding any
any-ext p q [] h = refl
any-ext p q (x ∷ xs) h = ground (arith, h x, any-ext p q xs h)

module _ (platform : Platform) where
  -- An absolute path does not begin with a tilde.
  expand_home_path-absolute :
      (p : Text) → starts_with p (text "/") ≡ true → expand_home_path platform p ≡ p
  unfolding expand_home_path text text_eq starts_with
  expand_home_path-absolute [] h = cc
  expand_home_path-absolute (c ∷ p) h = ground (arith, ==_iff c 47, ==_iff c 126)

  module _ (names : Text → List Text) (posix : IsPosix platform names) where
    is_path_inside_root-is_below :
        (path root : Text)
        → is_path_inside_root platform (platform.resolve path) root
          ≡ is_below (names (expand_home_path platform root)) (names path)
    unfolding is_path_inside_root
    is_path_inside_root-is_below path root =
        rw
          (
            expand_home_path-absolute (platform.resolve path) (posix.absolute path),
            posix.settled path,
            posix.related (expand_home_path platform root) path,
          )
          (stays_inside-way platform posix.separator (names (expand_home_path platform root))
            (names path))

    -- On POSIX a path is let through exactly where the names on the way to it, after the home
    -- directory is put in, begin with those on the way to some allowed root, and what follows,
    -- joined by slashes, neither begins with ".." nor has "../" in it; what is returned is then
    -- the resolved path, and otherwise the error names the path that was given.
    pub assert_allowed_path_lem :
        (path : Text) (roots : List Text)
        → assert_allowed_path platform path roots ≡ (
            if any
              (λ root.
                is_below
                  (names (expand_home_path platform root))
                  (names (expand_home_path platform path)))
              roots
            then ok (platform.resolve (expand_home_path platform path))
            else err path)
    unfolding assert_allowed_path
    assert_allowed_path_lem path roots =
        rw (any-ext _ _ roots (is_path_inside_root-is_below (expand_home_path platform path))) refl

  -- Where `relative` answers with the target itself, as `node:path` does on Windows for a target on
  -- another drive, every path that has no ".." at its start or before a separator counts as inside.
  pub is_path_inside_root_elsewhere :
      (path root : Text)
      → platform.relative
          (platform.resolve (expand_home_path platform root))
          (platform.resolve (expand_home_path platform path))
        ≡ platform.resolve (expand_home_path platform path)
      → starts_with (platform.resolve (expand_home_path platform path)) (text "..") ≡ false
      → includes (platform.resolve (expand_home_path platform path)) (text ".." ++ platform.sep)
        ≡ false
      → is_path_inside_root platform path root ≡ true
  unfolding is_path_inside_root stays_inside
  is_path_inside_root_elsewhere path root far plain clean =
      rw (far, plain, clean)
        (ground (arith, starts_with_of_eq (platform.resolve (expand_home_path platform path))))

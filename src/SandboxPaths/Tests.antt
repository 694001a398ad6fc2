-- ===== src/SandboxPaths/Tests.antt =====
-- Paths in and out of a sandbox.
use astation.Prelude.{◌≡◌, refl, [], ◌∷◌, All}
use astation.Prelude.Text.{starts_with, strip}
use astation.SandboxPaths.{
  allowed, refused, split, is_slash, join, normpath, parse_roots, has_nul, normalized_or_422,
  is_under_root, add_roots, keep_components, reverse_onto, validate_sandbox_path,
  validate_view_path,
}
use astation.SandboxPaths.Confined.{
  OfAllowed, IsNotUp, IsUnder, IsUnderSome, validate_sandbox_path-confines,
  validate_view_path-confines,
}

inside : validate_sandbox_path "/opt//data/../x/./y" "/opt/" ≡ allowed "/opt/x/y"
unfolding validate_sandbox_path normalized_or_422 is_under_root has_nul normpath join split
    keep_components reverse_onto starts_with
inside = refl

climbs_out : validate_sandbox_path "/opt/../etc/passwd" "/opt" ≡ refused 403
unfolding validate_sandbox_path normalized_or_422 is_under_root has_nul normpath join split
    keep_components reverse_onto starts_with
climbs_out = refl

beside : validate_sandbox_path "/optional" "/opt" ≡ refused 403
unfolding validate_sandbox_path normalized_or_422 is_under_root has_nul normpath join split
    keep_components reverse_onto starts_with
beside = refl

two_roots : parse_roots "/opt/, /srv,opt,/opt" ≡ "/opt" ∷ "/srv" ∷ []
unfolding parse_roots add_roots strip has_nul normpath join split keep_components reverse_onto
    starts_with
two_roots = refl

validate_sandbox_path-confines_example :
    OfAllowed
      (λ path. All IsNotUp (split is_slash path) × IsUnder (normpath (normpath "/opt/")) path)
      (validate_sandbox_path "/opt//data/../x/./y" "/opt/")
validate_sandbox_path-confines_example =
    validate_sandbox_path-confines "/opt//data/../x/./y" "/opt/"

validate_view_path-confines_example :
    OfAllowed
      (λ path. All IsNotUp (split is_slash path) × IsUnderSome ("/opt" ∷ "/srv" ∷ []) path)
      (validate_view_path "/srv/a/../b" "/opt" ("/srv" ∷ []))
validate_view_path-confines_example = validate_view_path-confines "/srv/a/../b" "/opt" ("/srv" ∷ [])

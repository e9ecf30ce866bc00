-- ===== src/Agent/ServiceProxy/Paths.antt =====
-- The paths that pass their check.
use pipeops_k8_agent.Prelude.{
  ◌≡◌, ◌∙◌, ap, ◌≢◌, ◌⊎◌, ◌↔◌, inl, inr, Bool, true, not, ◌&&◌, [], ◌∷◌, arith,
}
use pipeops_k8_agent.Prelude.Bytes.{Bytes, bytes_eq, bytes_eq_iff, codes}
use pipeops_k8_agent.Prelude.Text.{
  has_prefix, has_infix, IsIn, has_infix_iff, has_prefix-append, append-has_prefix,
}
use pipeops_k8_agent.Agent.ServiceProxy.{validate_path}

-- Empty or from the root, with no ".." and no "://" in it.
abbrev pub IsSafePath : Bytes → Type 0
IsSafePath path =
    ((path ≡ []) ⊎ ((rest : Bytes) × (path ≡ b'/' ∷ rest)))
    × ¬ IsIn (codes "..") path
    × ¬ IsIn (codes "://") path

path_test :
    (empty rooted dots scheme : Bool)
    → ((not (not empty && not rooted) && not dots && not scheme) ≡ true)
      ↔ (((empty ≡ true) ⊎ (rooted ≡ true)) × (dots ≢ true) × (scheme ≢ true))
path_test empty rooted dots scheme = (λ e. ground (arith, e), λ h. ground (arith, h))

rooted_iff :
    (path : Bytes) → (has_prefix path (codes "/") ≡ true) ↔ ((rest : Bytes) × (path ≡ b'/' ∷ rest))
rooted_iff path = (
  has_prefix-append path (codes "/"),
  λ (rest, same). ap (λ s. has_prefix s (codes "/")) same ∙ append-has_prefix (codes "/") rest,
)

pub validate_path_iff : (path : Bytes) → (validate_path path ≡ true) ↔ IsSafePath path
unfolding validate_path
validate_path_iff path =
    let test =
      path_test (bytes_eq path []) (has_prefix path (codes "/")) (has_infix path (codes ".."))
        (has_infix path (codes "://")) in
    let empty = bytes_eq_iff path [] in
    let rooted = rooted_iff path in
    let dots = has_infix_iff path (codes "..") in
    let scheme = has_infix_iff path (codes "://") in
    (
      λ e.
          let (start, no_dots, no_scheme) = test.0 e in
          (
            elim start [ inl h ↦ inl (empty.0 h) | inr h ↦ inr (rooted.0 h) ],
            λ h. no_dots (dots.1 h),
            λ h. no_scheme (scheme.1 h),
          ),
      λ (start, no_dots, no_scheme). test.1 (
        elim start [ inl h ↦ inl (empty.1 h) | inr h ↦ inr (rooted.1 h) ],
        λ h. no_dots (dots.0 h),
        λ h. no_scheme (scheme.0 h),
      ),
    )

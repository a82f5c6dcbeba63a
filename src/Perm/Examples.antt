-- ===== src/Perm/Examples.antt =====
-- The tests of internal/perm/perm_test.go, and the theorems at users with several groups.
use otel_magnify.Prelude.{◌≡◌, refl, true, false, [], ◌∷◌, arith, eq_iff}
use otel_magnify.Perm.{has, matrix, push_config, delete_workload}
use otel_magnify.Perm.Roles.{administrator_extends_editor, unknown_grants_nothing}

union : has ("viewer" ∷ "editor" ∷ []) push_config ≡ true
unfolding has matrix
union = refl

no_delete : has ("viewer" ∷ "editor" ∷ []) delete_workload ≡ false
unfolding has matrix
no_delete = refl

administrator_extends_editor_example : has ("viewer" ∷ "administrator" ∷ []) push_config ≡ true
administrator_extends_editor_example =
    administrator_extends_editor ("viewer" ∷ []) [] push_config union

unknown_grants_nothing_example :
    has ("superhero" ∷ "editor" ∷ []) push_config ≡ has ("editor" ∷ []) push_config
unknown_grants_nothing_example =
    unknown_grants_nothing "superhero" [] ("editor" ∷ []) push_config
      (λ h. ground (arith, eq_iff "superhero" "editor"))
      (λ h. ground (arith, eq_iff "superhero" "administrator"))

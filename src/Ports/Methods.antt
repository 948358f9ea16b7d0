-- ===== src/Ports/Methods.antt =====
-- isMutationMethod of src/libs/shared/port/port-registry.service.ts.
use app_tu_phuc_vu.Prelude.{Bool, List, [], ◌∷◌, any}
use app_tu_phuc_vu.Prelude.Text.{Text, codes, starts_with}

abbrev pub mutation_verbs : List Text
mutation_verbs =
    codes "create"
    ∷ codes "update"
    ∷ codes "delete"
    ∷ codes "remove"
    ∷ codes "add"
    ∷ codes "insert"
    ∷ codes "save"
    ∷ codes "send"
    ∷ codes "submit"
    ∷ codes "dispatch"
    ∷ codes "pay"
    ∷ codes "setup"
    ∷ codes "initiate"
    ∷ codes "retry"
    ∷ codes "cancel"
    ∷ codes "confirm"
    ∷ codes "generate"
    ∷ codes "register"
    ∷ codes "verify"
    ∷ codes "login"
    ∷ codes "logout"
    ∷ codes "refresh"
    ∷ codes "link"
    ∷ codes "unlink"
    ∷ codes "close"
    ∷ codes "archive"
    ∷ codes "assign"
    ∷ codes "sign"
    ∷ codes "post"
    ∷ codes "put"
    ∷ []

-- A method that begins with one of the verbs.
unfoldable pub is_mutation_method : Text → Bool
unfolding starts_with
is_mutation_method method = any (λ verb. starts_with verb method) mutation_verbs
